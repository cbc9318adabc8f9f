-- ===== src/Provider/Ready.antt =====
-- A release is ready exactly where the state of its report is PASS.
use k8s_lab_vmware.Prelude.{
  String, List, [], ◌∷◌, ◌≡◌, ◌↔◌, refl, subst, Bool, true, false, not, ◌&&◌, ◌||◌, Option, none,
  some, ℕ, if◌then◌else◌, all, any, Bool-cases, inl, inr, arith, all-append, ◌==◌, mem, leb,
  is_empty,
}
use k8s_lab_vmware.Prelude.Result.{ok, ok_inj, returned}
use k8s_lab_vmware.Json.{Number}
use k8s_lab_vmware.Provider.{
  Builtins, Status, passed, warned, failed, not_applicable, Gate, GateId, gate, passing, Documents,
  is_terminal, agrees, terminal_state, detection, integrity, read_only, data_protection,
  applicability, quality, kubernetes_coverage, cloud_api, cloud_coverage, budget,
}
use k8s_lab_vmware.Provider.Evaluate.{
  Thresholds, Report, pass, fail, warn, report_of, is_pass, is_fail, is_warn, cloud_gates,
  budget_status, coverage_status, readings_of, gates_at, evaluate, cloud_gates_of, cloud_status,
  gates_of, kubernetes_percent, cloud_percent, cloud_state,
}

-- A mandatory gate is never N/A.
abbrev is_decided : Gate → Bool
is_decided g = elim g.status [ not_applicable ↦ not g.mandatory | _ ↦ true ]

abbrev is_held : Gate → Bool
is_held g = not g.mandatory || is_pass g.status

gate_lem :
    (g : Gate)
    → is_decided g ≡ true
    → is_held g ≡ (not (g.mandatory && is_fail g.status) && not (g.mandatory && is_warn g.status))
gate_lem g h = decided g.mandatory g.status h
  where
    decided :
        (m : Bool) (s : Status)
        → elim s [ not_applicable ↦ not m | _ ↦ true ] ≡ true
        → (not m || is_pass s) ≡ (not (m && is_fail s) && not (m && is_warn s))
    decided false s h = refl
    decided true passed h = refl
    decided true warned h = refl
    decided true failed h = refl
    decided true not_applicable h = cc

gates_lem :
    (gates : List Gate)
    → all is_decided gates ≡ true
    → all is_held gates ≡ (
        not (any (λ (g : Gate). g.mandatory && is_fail g.status) gates)
        && not (any (λ (g : Gate). g.mandatory && is_warn g.status) gates))
gates_lem [] h = refl
gates_lem (g ∷ gates) h = ground (arith, gate_lem g, gates_lem gates)

state_lem :
    (held failing warning : Bool)
    → held ≡ (not failing && not warning)
    → (held ≡ true) ↔ ((if failing then fail else if warning then warn else pass) ≡ pass)
state_lem held true warning h = (λ e. cc, λ e. cc)
state_lem held false true h = (λ e. cc, λ e. cc)
state_lem held false false h = (λ e. refl, λ e. h)

report_of-ready :
    (gates : List Gate)
    → all is_decided gates ≡ true
    → ((report_of gates).release_ready ≡ true) ↔ ((report_of gates).state ≡ pass)
unfolding report_of
report_of-ready gates h =
    state_lem (all is_held gates) (any (λ (g : Gate). g.mandatory && is_fail g.status) gates)
      (any (λ (g : Gate). g.mandatory && is_warn g.status) gates) (gates_lem gates h)

passing-decided : (id : GateId) (x : Bool) → is_decided (gate id (passing x)) ≡ true
passing-decided id true = refl
passing-decided id false = refl

coverage-decided :
    (id : GateId) (unknown : Status) (o : Option ℕ) (minimum : ℕ)
    → is_decided (gate id unknown) ≡ true
    → is_decided (gate id (coverage_status unknown o minimum)) ≡ true
coverage-decided id unknown none minimum h = h
coverage-decided id unknown (some p) minimum h = passing-decided id (leb minimum p)

budget-decided :
    (id : GateId) (metrics : List (Option Number × Number))
    → is_decided (gate id (budget_status metrics)) ≡ true
unfolding budget_status
budget-decided id metrics = ground arith

cloud-decided :
    (is_generic : Bool) (state : String) (percent : Option ℕ) (minimum : ℕ)
    → all is_decided (cloud_gates_of is_generic state percent minimum) ≡ true
unfolding cloud_gates_of
cloud-decided true state percent minimum =
    elim (Bool-cases (mem state ("N/A" ∷ "NOT_APPLICABLE" ∷ []))) [
      | inl valid ↦ rw valid refl
      | inr other ↦ rw other refl
    ]
cloud-decided false state percent minimum =
    ground (arith, coverage-decided cloud_coverage failed percent minimum refl, status state)
  where
    status : (state : String) → is_decided (gate cloud_api (cloud_status state)) ≡ true
    status state = ground arith

module _ (terminal agreed intact safe kept applied clean : Bool) (coverage : Status)
    (cloud : List Gate) (performance : Status) where
  gates-decided :
      is_decided (gate kubernetes_coverage coverage) ≡ true
      → all is_decided cloud ≡ true
      → is_decided (gate budget performance) ≡ true
      → all is_decided
          (gates_of terminal agreed intact safe kept applied clean coverage cloud performance)
        ≡ true
  unfolding gates_of
  gates-decided h1 h2 h3 =
      rw
        (
          passing-decided terminal_state terminal,
          passing-decided detection agreed,
          passing-decided integrity intact,
          passing-decided read_only safe,
          passing-decided data_protection kept,
          passing-decided applicability applied,
          passing-decided quality clean,
          h1,
          all-append is_decided cloud (gate budget performance ∷ []),
          h2,
          h3,
        )
        refl

-- For any Python functions on values: where the evaluation returns a report, it is ready for release
-- exactly if its state is PASS.
pub evaluate-ready_state :
    (b : Builtins) (t : Thresholds) (detected expected : String) (artifacts_ok : Bool)
    (d : Documents) (report : Report)
    → evaluate b t detected expected artifacts_ok d ≡ ok report
    → (report.release_ready ≡ true) ↔ (report.state ≡ pass)
unfolding evaluate cloud_gates
evaluate-ready_state b t detected expected artifacts_ok d report h =
    let (r, e, h1) = returned (readings_of b t expected d) _ h in
    subst (λ (x : Report). (x.release_ready ≡ true) ↔ (x.state ≡ pass)) (ok_inj h1)
      (report_of-ready (gates_at b t detected expected artifacts_ok d r) (
        gates-decided (is_terminal b d.metadata) (agrees b detected expected d.cloud d.operational)
          artifacts_ok r.safe r.kept (is_empty r.violations) r.clean
          (coverage_status warned (kubernetes_percent b d) t.min_kubernetes_coverage)
          (cloud_gates b expected t.min_cloud_coverage d) (budget_status r.metrics)
          (coverage-decided kubernetes_coverage warned (kubernetes_percent b d)
            t.min_kubernetes_coverage refl)
          (cloud-decided (expected == "generic-kubernetes") (cloud_state b d) (cloud_percent b d)
            t.min_cloud_coverage)
          (budget-decided budget r.metrics)))
