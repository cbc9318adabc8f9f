-- ===== src/Regression/Evaluate/Ready.antt =====
-- What a release that `evaluate` calls ready has shown.
use k8s_lab_vmware.Prelude.{
  List, [], ◌∷◌, ◌++◌, ◌≡◌, refl, Bool, true, false, not, ◌||◌, Option, if◌then◌else◌, all,
  all-append, arith,
}
use k8s_lab_vmware.Regression.{Collection, skipped, Gate, NodeSummary, Quality}
use k8s_lab_vmware.Regression.Policy.{Thresholds}
use k8s_lab_vmware.Regression.Scope.{scope_evidence}
use k8s_lab_vmware.Regression.Findings.{findings_delta, finding_gates, Delta}
use k8s_lab_vmware.Regression.Cis.{cis_gate}
use k8s_lab_vmware.Regression.Gates.{
  node_gate, node_gate_of, operational_gate, operational_gate_of, operational_of, Operational,
  quality_gate, quality_gate_of, performance_gate, scope_blocked_gates,
}
use k8s_lab_vmware.Regression.Evaluate.{
  scope_gates, content_gates, is_passed, release_ready, overall_state, report_of,
}

-- A gate that does not block.
abbrev pub clear : Gate → Bool
clear g = not g.mandatory || is_passed g.status

pub release_ready-all : (gates : List Gate) → release_ready gates ≡ all clear gates
unfolding release_ready
release_ready-all [] = refl
release_ready-all (g ∷ gates) = ground (arith, release_ready-all gates)

-- A mandatory gate is never skipped.
abbrev judged : Gate → Bool
judged g = not g.mandatory || elim g.status [ skipped ↦ false | _ ↦ true ]

ready_state :
    (gates : List Gate)
    → all judged gates ≡ true
    → release_ready gates ≡ is_passed (overall_state gates)
unfolding release_ready overall_state
ready_state [] h = refl
ready_state (g ∷ gates) h = ground (arith, ready_state gates)

judged_scope :
    (t : Thresholds) (v : Bool) (before after : Collection)
    → all judged (scope_gates t v before after) ≡ true
unfolding scope_gates
judged_scope t v before after = ground arith

judged_findings : (d : Delta) (t : Thresholds) → all judged (finding_gates d t) ≡ true
unfolding finding_gates
judged_findings d t = ground arith

judged_cis :
    (before after : Collection) (t : Thresholds) → judged (cis_gate before after t).0 ≡ true
unfolding cis_gate
judged_cis before after t = ground arith

judged_node :
    (t : Thresholds) (before after : Collection) (old new : Option NodeSummary)
    → judged (node_gate_of t before after old new) ≡ true
judged_node t before after old new = ground arith

judged_operational :
    (t : Thresholds) (old new : Option Operational) → judged (operational_gate_of t old new) ≡ true
judged_operational t old new = ground arith

judged_quality :
    (t : Thresholds) (old new : Option Quality) → judged (quality_gate_of t old new) ≡ true
judged_quality t old new = ground arith

judged_performance :
    (before after : Collection) (t : Thresholds) → judged (performance_gate before after t) ≡ true
unfolding performance_gate
judged_performance before after t = ground arith

judged_content :
    (t : Thresholds) (before after : Collection) → all judged (content_gates t before after) ≡ true
unfolding content_gates node_gate operational_gate quality_gate
judged_content t before after = rw (
  all-append judged (finding_gates (findings_delta before after) t),
  judged_findings (findings_delta before after) t,
  judged_cis before after t,
  judged_node t before after before.node_summary after.node_summary,
  judged_operational t (operational_of before.manifest before.versions)
      (operational_of after.manifest after.versions),
  judged_quality t before.quality after.quality,
  judged_performance before after t,
)

judged_blocked : all judged scope_blocked_gates ≡ true
unfolding scope_blocked_gates
judged_blocked = refl

-- For any policy and any two collections: a report calls the release ready exactly if its overall
-- state is PASS.
pub report_of-ready_state :
    (t : Thresholds) (v : Bool) (before after : Collection)
    → (report_of t v before after).ready ≡ is_passed (report_of t v before after).state
unfolding report_of
report_of-ready_state t v before after =
    let rest =
      if (scope_evidence before after).same_scope
      then content_gates t before after
      else scope_blocked_gates in
    ready_state (scope_gates t v before after ++ rest) (
      rw (all-append judged (scope_gates t v before after), judged_scope t v before after)
        (ground (arith, judged_content t before after, judged_blocked)))
