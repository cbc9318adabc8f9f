-- ===== src/Migration/Examples.antt =====
-- A migration of one workload and one service to another namespace.
use k8s_lab_vmware.Prelude.{split, String, [], ◌∷◌, ◌≡◌, refl, true, false, some, none, mem, lookup}
use k8s_lab_vmware.Migration.{
  ref, Mapping, Collection, mapped_resource, lookup_ref, insert_ref, refs_from, workload_inventory,
  service_inventory, parity,
}
use k8s_lab_vmware.Migration.Gates.{
  go, no_go, traffic_status, data_status, capacity_status, probes_status, configuration_status,
  security_status, gates_of, verdict_of, evaluate,
}
use k8s_lab_vmware.Migration.Parity.{
  same_texts, same_ports, same_service, workload_differences, workload_status, service_status,
  policy_status, api_status, storage_status, identity_status, cutover_status, rollback_status,
}
use k8s_lab_vmware.Migration.Go.{Granted, evaluate-Granted}

abbrev mapping : Mapping
mapping = record {
  namespaces = ("blue", "green") ∷ [];
  resources = ("Service/blue/api", "green/api-v2") ∷ [];
  allowed_differences = "image" ∷ "replicas" ∷ [];
}

abbrev side : String → String → String → Collection
side namespace service image = record {
  completed = true;
  status = "COMPLETED";
  items =
      (
        ref "Deployment" namespace "api",
        record { replicas = some 2; images = image ∷ []; service_account = "default" },
      )
      ∷ (
        ref "Pod" namespace "api-1",
        record { replicas = none; images = image ∷ []; service_account = "default" },
      )
      ∷ [];
  services =
      (
        ref "Service" namespace service,
        record {
          service_type = "ClusterIP";
          ports = record { name = "http"; port = 80; protocol = "TCP" } ∷ [];
          headless = false;
        },
      )
      ∷ [];
  policies = [];
  claims = none;
  storage_classes = none;
  service_accounts = some ((namespace, "default") ∷ []);
  references = [];
  traffic_state = some "PASS";
  traffic_paths = 1;
  data_state = none;
  stateful_workloads = 0;
  jobs = 0;
  node_state = "PASS";
  manifest_state = "PASS";
  versions_present = true;
  end_of_support = 0;
  version_skew = false;
  lifecycle_unknown = 0;
  cis_controls = none;
  telemetry_state = "AVAILABLE";
  probes_state = some "PASS";
  dns_validated = some true;
  load_balancer_validated = some true;
  rollback_available = some true;
  manual_state = "VALID";
}

abbrev source : Collection
source = side "blue" "api" "api:1"

abbrev target : Collection
target = side "green" "api-v2" "api:2"

source-go : evaluate mapping source target ≡ go
unfolding evaluate gates_of verdict_of workload_status service_status policy_status api_status
    storage_status identity_status cutover_status rollback_status traffic_status data_status
    capacity_status probes_status configuration_status security_status workload_inventory
    service_inventory refs_from insert_ref lookup_ref mapped_resource split parity
    workload_differences same_texts same_service same_ports mem lookup
source-go = refl

-- Without the mapping the workload has no target.
unmapped :
    evaluate (record { namespaces = []; resources = []; allowed_differences = [] }) source target
    ≡ no_go
unfolding evaluate gates_of verdict_of workload_status service_status policy_status api_status
    storage_status identity_status cutover_status rollback_status traffic_status data_status
    capacity_status probes_status configuration_status security_status workload_inventory
    service_inventory refs_from insert_ref lookup_ref mapped_resource split parity
    workload_differences same_texts same_service same_ports mem lookup
unmapped = refl

evaluate-Granted_example : Granted mapping source target
evaluate-Granted_example = evaluate-Granted mapping source target source-go
