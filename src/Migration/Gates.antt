-- ===== src/Migration/Gates.antt =====
-- The gates of `evaluate` of tools/eks-assessment/src/migration_compare.py and its verdict.
use k8s_lab_vmware.Prelude.{
  String, List, [], ◌∷◌, map, Bool, true, false, not, ◌&&◌, ◌||◌, Option, none, some, if◌then◌else◌,
  get_or, ◌==◌, nat_eq, ltb, any, all, mem, keep, is_empty, is_some,
}
use k8s_lab_vmware.Migration.{
  same_ref, Mapping, mapped_resource, Reference, CisControl, Collection, workload_inventory,
  service_inventory,
}
use k8s_lab_vmware.Migration.Parity.{
  Gate, Status, api_status, cutover_status, failed, gate, identity_status, manual_status,
  not_applicable, passed, policy_status, rollback_status, service_status, storage_status, unknown,
  warned, workload_status,
}

abbrev pub has_state : Option String → String → Bool
has_state none name = false
has_state (some state) name = state == name

-- `state in {"UNKNOWN", None}`
abbrev pub no_state : Option String → Bool
no_state s = not (is_some s) || has_state s "UNKNOWN"

unfoldable pub traffic_status : (source target : Collection) → Status
traffic_status source target =
    if has_state target.traffic_state "FAIL"
    then failed
    else if no_state target.traffic_state
        || (ltb 0 source.traffic_paths && nat_eq target.traffic_paths 0)
    then unknown
    else if has_state target.traffic_state "WARN"
    then warned
    else passed

unfoldable pub data_status : Collection → Status
data_status t =
    if has_state t.data_state "FAIL"
    then failed
    else if no_state t.data_state
    then unknown
    else passed

unfoldable pub capacity_status : Collection → Status
capacity_status t =
    if t.node_state == "PASS"
    then passed
    else if t.node_state == "CRIT"
    then failed
    else if t.node_state == "WARN"
    then warned
    else unknown

unfoldable pub probes_status : Collection → Status
probes_status t =
    if has_state t.probes_state "FAIL"
    then failed
    else if has_state t.probes_state "WARN"
    then warned
    else if has_state t.probes_state "PASS"
    then passed
    else unknown

abbrev pub same_reference : Reference → Reference → Bool
same_reference a b = same_ref a.target b.target && a.key == b.key

abbrev pub required_references : Collection → List Reference
required_references c = keep (λ (r : Reference). not r.optional) c.references

-- `normalize_reference`
abbrev pub normalize_reference : Mapping → Reference → Reference
normalize_reference m r = record r { target = mapped_resource r.target m }

unfoldable pub configuration_status : Mapping → (source target : Collection) → Status
configuration_status m source target =
    let present = required_references target in
    let wanted = map (normalize_reference m) (required_references source) in
    if not (all (λ r. any (same_reference r) present) wanted)
      || any (λ (r : Reference). r.state == "MISSING") present
    then failed
    else if any (λ (r : Reference). r.state == "EVIDENCE_UNAVAILABLE") present
    then unknown
    else passed

abbrev pub cis_warning : CisControl → Bool
cis_warning c = mem c.status ("WARN" ∷ "FAIL" ∷ []) && c.applicability == "APPLICABLE"

abbrev pub cis_unknown : CisControl → Bool
cis_unknown c =
    mem c.status ("UNKNOWN" ∷ "PARTIAL" ∷ [])
    || mem c.applicability ("EVIDENCE_UNAVAILABLE" ∷ "MANUAL_REVIEW" ∷ [])

unfoldable pub security_status : Collection → Status
security_status t =
    let controls = get_or t.cis_controls [] in
    if any cis_warning controls
    then warned
    else if not (is_some t.cis_controls) || any cis_unknown controls
    then unknown
    else passed

abbrev pub observability_status : Collection → Status
observability_status t =
    if t.telemetry_state == "AVAILABLE"
    then passed
    else if t.telemetry_state == "PARTIAL"
    then warned
    else unknown

abbrev pub is_complete : Collection → Bool
is_complete c = c.completed && c.status == "COMPLETED"

abbrev pub is_absent : Status → Bool
is_absent not_applicable = true
is_absent _ = false

unfoldable pub gates_of : Mapping → (source target : Collection) → List Gate
gates_of m source target =
    let services = service_inventory source in
    let identity = identity_status target in
    gate "migration.collections"
      (if is_complete source && is_complete target then passed else failed) true
    ∷ gate "migration.workload-parity"
        (workload_status m (workload_inventory source) (workload_inventory target)) true
    ∷ gate "migration.service-parity" (service_status m services (service_inventory target))
        (not (is_empty services))
    ∷ gate "migration.policy-parity" (policy_status m source.policies target.policies)
        (not (is_empty source.policies))
    ∷ gate "migration.workload-identity" identity (not (is_absent identity))
    ∷ gate "migration.configuration-parity" (configuration_status m source target) true
    ∷ gate "migration.api-lifecycle" (api_status target) true
    ∷ gate "migration.traffic-readiness" (traffic_status source target) true
    ∷ gate "migration.storage-parity" (storage_status m source target)
        (not (is_empty (get_or source.claims [])))
    ∷ gate "migration.state-data" (data_status target)
        (ltb 0 target.stateful_workloads || ltb 0 target.jobs)
    ∷ gate "migration.target-capacity" (capacity_status target) true
    ∷ gate "migration.security-posture" (security_status target) false
    ∷ gate "migration.observability" (observability_status target) false
    ∷ gate "migration.cutover-probes" (probes_status target) true
    ∷ gate "migration.dns-load-balancer" (cutover_status target) true
    ∷ gate "migration.rollback" (rollback_status target) true
    ∷ gate "migration.manual-evidence-contract" (manual_status target) true
    ∷ []

pub data Verdict : Type 0 where
  go no_go undecided : Verdict

abbrev pub is_failed : Status → Bool
is_failed failed = true
is_failed _ = false

abbrev pub is_unknown : Status → Bool
is_unknown unknown = true
is_unknown _ = false

unfoldable pub verdict_of : List Gate → Verdict
verdict_of gates =
    let mandatory = keep (λ (g : Gate). g.mandatory) gates in
    if any (λ (g : Gate). is_failed g.status) mandatory
    then no_go
    else if any (λ (g : Gate). is_unknown g.status) mandatory
    then undecided
    else go

-- The status of the report of `evaluate`.
unfoldable pub evaluate : Mapping → (source target : Collection) → Verdict
evaluate m source target = verdict_of (gates_of m source target)
