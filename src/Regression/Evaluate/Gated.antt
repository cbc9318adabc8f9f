-- ===== src/Regression/Evaluate/Gated.antt =====
-- What each gate of the regression validation has established where none of its gates holds back a
-- release.
use k8s_lab_vmware.Prelude.{
  ◌≤◌, ◌≡◌, refl, Bool, true, false, Option, none, some, count, length, all, arith, is_empty,
  is_some,
}
use k8s_lab_vmware.Regression.{Collection, NodeSummary, Quality}
use k8s_lab_vmware.Regression.Policy.{Thresholds}
use k8s_lab_vmware.Regression.Policy.Strict.{IsStrict}
use k8s_lab_vmware.Regression.Scope.{scope_evidence, completed}
use k8s_lab_vmware.Regression.Findings.{
  is_crit, is_warn, finding_gates, after_is, new_risk_failed, current_exceeded, Delta,
}
use k8s_lab_vmware.Regression.Cis.{cis_gate, cis_exceeded, compare_reports}
use k8s_lab_vmware.Regression.Gates.{
  node_gate_of, node_exceeded, operational_gate_of, Operational, operational_exceeded,
  quality_gate_of, quality_increase, performance_gate, increases, performance_exceeded,
  increase_missing, coverage_drop,
}
use k8s_lab_vmware.Regression.Evaluate.{scope_gates}
use k8s_lab_vmware.Regression.Evaluate.Ready.{clear}

pub clear_findings :
    (d : Delta) (t : Thresholds)
    → all clear (finding_gates d t) ≡ true
    → (count (after_is is_crit) d.new_risks ≤ t.new_critical)
      × (count (after_is is_warn) d.new_risks ≤ t.new_warnings)
      × (length d.severity_regressions ≤ t.severity_regressions)
      × (length d.evidence_loss ≤ t.evidence_loss)
      × (current_exceeded t d ≡ false)
unfolding finding_gates new_risk_failed
clear_findings d t h = ground arith

pub clear_cis :
    (before after : Collection) (t : Thresholds)
    → t.require_cis ≡ true
    → clear (cis_gate before after t).0 ≡ true
    → ((is_empty before.cis.controls ≡ false) × (is_empty after.cis.controls ≡ false))
      × (is_empty
            (cis_exceeded t before.cis after.cis (compare_reports before.cis after.cis).changes)
          ≡ true)
unfolding cis_gate
clear_cis before after t r h = ground arith

pub clear_node :
    (t : Thresholds) (before after : Collection) (b a : Option NodeSummary)
    → t.require_operational ≡ true
    → clear (node_gate_of t before after b a) ≡ true
    → (old : NodeSummary) × (new : NodeSummary) × (b ≡ some old)
      × (a ≡ some new)
      × (is_some (coverage_drop old.metrics_coverage new.metrics_coverage) ≡ true)
      × (is_empty (node_exceeded t before after old new) ≡ true)
clear_node t before after (some old) (some new) r h =
    (old, new, refl, refl, ground arith, ground arith)
clear_node t before after (some old) none r h = ground arith
clear_node t before after none a r h = ground arith

pub clear_operational :
    (t : Thresholds) (b a : Option Operational)
    → t.require_operational ≡ true
    → clear (operational_gate_of t b a) ≡ true
    → (old : Operational) × (new : Operational) × (b ≡ some old)
      × (a ≡ some new)
      × (is_empty (operational_exceeded t old new) ≡ true)
clear_operational t (some old) (some new) r h = (old, new, refl, refl, ground arith)
clear_operational t (some old) none r h = ground arith
clear_operational t none a r h = ground arith

pub clear_quality :
    (t : Thresholds) (b a : Option Quality)
    → clear (quality_gate_of t b a) ≡ true
    → (old : Quality) × (new : Quality) × (b ≡ some old)
      × (a ≡ some new)
      × (quality_increase old new ≤ t.quality_regression)
clear_quality t (some old) (some new) h = (old, new, refl, refl, ground arith)
clear_quality t (some old) none h = cc
clear_quality t none a h = cc

pub clear_performance :
    (before after : Collection) (t : Thresholds)
    → clear (performance_gate before after t) ≡ true
    → (increase_missing (increases before after) ≡ false)
      × (is_empty (performance_exceeded t (increases before after)) ≡ true)
unfolding performance_gate
clear_performance before after t h = ground arith

pub clear_scope :
    (t : Thresholds) (v : Bool) (before after : Collection)
    → IsStrict t
    → all clear (scope_gates t v before after) ≡ true
    → ((scope_evidence before after).same_scope ≡ true)
      × (completed before ≡ true)
      × (completed after ≡ true)
      × (v ≡ true → (before.artifacts_ok ≡ true) × (after.artifacts_ok ≡ true))
unfolding scope_gates
clear_scope t v before after s h = ground arith
