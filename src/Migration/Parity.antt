-- ===== src/Migration/Parity.antt =====
-- The gates of tools/eks-assessment/src/migration_compare.py on what the collections have in common:
-- workloads, services, policies, APIs, storage, identities and manual evidence.
use k8s_lab_vmware.Prelude.{
  ℕ, String, List, [], ◌∷◌, ◌++◌, map, Bool, true, false, not, ◌&&◌, ◌||◌, Option, none, some,
  if◌then◌else◌, get_or, ◌==◌, nat_eq, ltb, any, all, mem, keep, minus, is_empty, is_some,
}
use k8s_lab_vmware.Migration.{
  Ref, ref, Mapping, mapped_resource, RefDict, lookup_ref, Workload, Port, Service, Claim,
  Collection, workload_inventory, parity,
}

pub data Status : Type 0 where
  passed failed warned unknown not_applicable : Status

-- `gate(…)`, less its domain, summary and evidence.
pub record Gate : Type 0 where
  pub gate_id : String
  pub status : Status
  pub mandatory : Bool

abbrev pub gate : String → Status → Bool → Gate
gate gate_id status mandatory = record { gate_id = gate_id; status = status; mandatory = mandatory }

unfoldable pub same_texts : List String → List String → Bool
same_texts [] [] = true
same_texts (x ∷ xs) (y ∷ ys) = x == y && same_texts xs ys
same_texts _ _ = false

abbrev pub same_number : Option ℕ → Option ℕ → Bool
same_number none none = true
same_number (some a) (some b) = nat_eq a b
same_number _ _ = false

-- The fields in which a workload and its target differ.
unfoldable pub workload_differences : Workload → Workload → List String
workload_differences old new =
    (if same_texts old.images new.images then [] else "images" ∷ [])
    ++ ((if same_number old.replicas new.replicas then [] else "replicas" ∷ [])
        ++ (if old.service_account == new.service_account then [] else "serviceAccount" ∷ []))

abbrev pub is_allowed : Mapping → String → Bool
is_allowed m field =
    mem field m.allowed_differences || (field == "images" && mem "image" m.allowed_differences)

abbrev pub same_bool : Bool → Bool → Bool
same_bool true b = b
same_bool false b = not b

unfoldable pub same_ports : List Port → List Port → Bool
same_ports [] [] = true
same_ports (p ∷ ps) (q ∷ qs) =
    (p.name == q.name && nat_eq p.port q.port && p.protocol == q.protocol) && same_ports ps qs
same_ports _ _ = false

unfoldable pub same_service : Service → Service → Bool
same_service old new =
    old.service_type == new.service_type
    && same_ports old.ports new.ports
    && same_bool old.headless new.headless

-- A source object whose target is missing, or that differs from it.
abbrev pub workload_blocks : Mapping → Workload → Option Workload → Bool
workload_blocks m old none = true
workload_blocks m old (some new) = not (all (is_allowed m) (workload_differences old new))

abbrev pub workload_differs : Workload → Option Workload → Bool
workload_differs old none = false
workload_differs old (some new) = not (is_empty (workload_differences old new))

abbrev pub service_blocks : Service → Option Service → Bool
service_blocks old none = true
service_blocks old (some new) = not (same_service old new)

abbrev pub target_of : {V : Type 0} → Mapping → RefDict V → Ref → Option V
target_of m targets r = lookup_ref (mapped_resource r m) targets

unfoldable pub workload_status : Mapping → (sources targets : RefDict Workload) → Status
workload_status m sources targets =
    if any (λ (p : Ref × Workload). workload_blocks m p.1 (target_of m targets p.0)) sources
    then failed
    else if any (λ (p : Ref × Workload). workload_differs p.1 (target_of m targets p.0)) sources
    then warned
    else passed

unfoldable pub service_status : Mapping → (sources targets : RefDict Service) → Status
service_status m sources targets =
    if any (λ (p : Ref × Service). service_blocks p.1 (target_of m targets p.0)) sources
    then failed
    else passed

unfoldable pub policy_status : Mapping → (sources targets : List Ref) → Status
policy_status m sources targets =
    if not (is_empty (parity sources targets m))
    then failed
    else if is_empty sources
    then not_applicable
    else passed

-- `target_api_lifecycle_gate`
unfoldable pub api_status : Collection → Status
api_status target =
    if target.manifest_state == "FAIL" || ltb 0 target.end_of_support || target.version_skew
    then failed
    else if mem target.manifest_state ("EVIDENCE_UNAVAILABLE" ∷ "UNKNOWN" ∷ "" ∷ [])
        || not target.versions_present
    then unknown
    else if mem target.manifest_state ("WARN" ∷ "PARTIAL" ∷ []) || ltb 0 target.lifecycle_unknown
    then warned
    else passed

-- `storage_parity`
unfoldable pub storage_status : Mapping → (source target : Collection) → Status
storage_status m source target =
    let claims = get_or source.claims [] in
    let missing =
      parity (map (λ (c : Claim). c.claim) claims)
        (map (λ (c : Claim). c.claim) (get_or target.claims [])) m in
    let named = keep (λ (c : Claim). not (c.storage_class == "")) claims in
    let expected =
      map (λ (c : Claim). (mapped_resource (ref "StorageClass" "-" c.storage_class) m).name)
        named in
    let absent = minus expected (get_or target.storage_classes []) in
    if not (is_empty missing) || not (is_empty absent)
    then failed
    else if is_empty claims
    then not_applicable
    else if is_some target.claims && is_some target.storage_classes
    then passed
    else unknown

abbrev pub same_account : String × String → String × String → Bool
same_account a b = a.0 == b.0 && a.1 == b.1

-- `workload_identity_gate`; the account of a workload is never empty.
unfoldable pub identity_status : Collection → Status
identity_status target =
    let required =
      map (λ (p : Ref × Workload). (p.0.namespace, p.1.service_account))
        (keep (λ (p : Ref × Workload). not (p.1.service_account == ""))
          (workload_inventory target)) in
    if is_empty required then not_applicable else elim target.service_accounts [
      | none ↦ unknown
      | some existing ↦ if all (λ a. any (same_account a) existing) required then passed else failed
    ]

abbrev pub is_no : Option Bool → Bool
is_no (some false) = true
is_no _ = false

abbrev pub is_yes : Option Bool → Bool
is_yes (some true) = true
is_yes _ = false

unfoldable pub cutover_status : Collection → Status
cutover_status t =
    if is_yes t.dns_validated && is_yes t.load_balancer_validated
    then passed
    else if is_no t.dns_validated || is_no t.load_balancer_validated
    then failed
    else unknown

unfoldable pub rollback_status : Collection → Status
rollback_status t =
    if is_yes t.rollback_available
    then passed
    else if is_no t.rollback_available
    then failed
    else unknown

abbrev pub manual_status : Collection → Status
manual_status t =
    if t.manual_state == "INVALID"
    then failed
    else if t.manual_state == "VALID"
    then passed
    else unknown
