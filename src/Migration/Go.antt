-- ===== src/Migration/Go.antt =====
-- What the verdict GO has shown.
use k8s_lab_vmware.Prelude.{
  String, List, [], ◌∷◌, ◌≡◌, refl, Bool, true, false, not, ◌&&◌, ◌||◌, if◌then◌else◌, all, any,
  ◌==◌, arith, All, is_empty,
}
use k8s_lab_vmware.Migration.{
  Ref, RefDict, Mapping, Workload, Service, Collection, workload_inventory, service_inventory,
}
use k8s_lab_vmware.Migration.Gates.{
  go, verdict_of, gates_of, evaluate, is_failed, is_unknown, is_complete,
}
use k8s_lab_vmware.Migration.Parity.{
  Gate, passed, failed, gate, workload_blocks, service_blocks, target_of, workload_status,
  service_status, cutover_status, rollback_status, is_yes, manual_status,
}

-- A gate that does not block GO.
abbrev clear : Gate → Bool
clear g = not g.mandatory || not (is_failed g.status || is_unknown g.status)

both : (a b : Bool) → (a && b) ≡ true → (a ≡ true) × (b ≡ true)
both a b h = ground arith

verdict_clear : (gates : List Gate) → verdict_of gates ≡ go → all clear gates ≡ true
unfolding verdict_of
verdict_clear [] h = refl
verdict_clear (g ∷ gates) h = ground (arith, verdict_clear gates)

-- Both collections completed; each source workload and service at its mapped target, the workload
-- with allowed differences at most; the cutover, the rollback and the manual evidence confirmed.
pub record Granted (m : Mapping) (source target : Collection) : Type 0 where
  pub complete : (is_complete source ≡ true) × (is_complete target ≡ true)
  pub workloads :
      any
        (λ (p : Ref × Workload).
          workload_blocks m p.1 (target_of m (workload_inventory target) p.0))
        (workload_inventory source)
      ≡ false
  pub services :
      any
        (λ (p : Ref × Service). service_blocks p.1 (target_of m (service_inventory target) p.0))
        (service_inventory source)
      ≡ false
  pub cutover :
      (is_yes target.dns_validated ≡ true) × (is_yes target.load_balancer_validated ≡ true)
  pub rollback : is_yes target.rollback_available ≡ true
  pub manual : (target.manual_state == "VALID") ≡ true

cleared : (gates : List Gate) → all clear gates ≡ true → All (λ g. clear g ≡ true) gates
cleared [] h = tt
cleared (g ∷ gates) h = let (p, q) = both (clear g) (all clear gates) h in (p, cleared gates q)

clear_collections :
    (id : String) (a b : Bool)
    → clear (gate id (if a && b then passed else failed) true) ≡ true
    → (a ≡ true) × (b ≡ true)
clear_collections id a b h = ground arith

clear_workloads :
    (id : String) (m : Mapping) (sources targets : RefDict Workload)
    → clear (gate id (workload_status m sources targets) true) ≡ true
    → any (λ (p : Ref × Workload). workload_blocks m p.1 (target_of m targets p.0)) sources ≡ false
unfolding workload_status
clear_workloads id m sources targets h = ground arith

clear_services :
    (id : String) (m : Mapping) (sources targets : RefDict Service)
    → clear (gate id (service_status m sources targets) (not (is_empty sources))) ≡ true
    → any (λ (p : Ref × Service). service_blocks p.1 (target_of m targets p.0)) sources ≡ false
unfolding service_status
clear_services id m [] targets h = refl
clear_services id m (p ∷ sources) targets h = ground arith

clear_cutover :
    (id : String) (t : Collection)
    → clear (gate id (cutover_status t) true) ≡ true
    → (is_yes t.dns_validated ≡ true) × (is_yes t.load_balancer_validated ≡ true)
unfolding cutover_status
clear_cutover id t h = ground arith

clear_rollback :
    (id : String) (t : Collection)
    → clear (gate id (rollback_status t) true) ≡ true
    → is_yes t.rollback_available ≡ true
unfolding rollback_status
clear_rollback id t h = ground arith

clear_manual :
    (id : String) (t : Collection)
    → clear (gate id (manual_status t) true) ≡ true
    → (t.manual_state == "VALID") ≡ true
clear_manual id t h = ground arith

-- A migration that `evaluate` calls GO is between completed collections, has each workload and
-- service of the source at its mapped target, without a difference that is not allowed, and has the
-- DNS, load balancer, rollback and manual evidence of the target confirmed.
pub evaluate-Granted :
    (m : Mapping) (source target : Collection)
    → evaluate m source target ≡ go
    → Granted m source target
unfolding evaluate gates_of
evaluate-Granted m source target h =
    let (c, (w, (s, (_, (_, (_, (_, (_, (_, (_, (_, (_, (_, (_, (d, (r, (e, _))))))))))))))))) =
      cleared (gates_of m source target) (verdict_clear (gates_of m source target) h) in
    record {
      complete =
          clear_collections "migration.collections" (is_complete source) (is_complete target) c;
      workloads =
          clear_workloads "migration.workload-parity" m (workload_inventory source)
            (workload_inventory target) w;
      services =
          clear_services "migration.service-parity" m (service_inventory source)
            (service_inventory target) s;
      cutover = clear_cutover "migration.dns-load-balancer" target d;
      rollback = clear_rollback "migration.rollback" target r;
      manual = clear_manual "migration.manual-evidence-contract" target e;
    }
