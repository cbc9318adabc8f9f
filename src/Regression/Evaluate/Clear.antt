-- ===== src/Regression/Evaluate/Clear.antt =====
-- The evidence behind a release that is called ready.
use k8s_lab_vmware.Prelude.{
  ◌≤◌, List, [], ◌∷◌, ◌++◌, ◌≡◌, sym, ◌∙◌, Bool, true, false, ◌&&◌, Option, none, some,
  if◌then◌else◌, Dict, ◌==◌, count, length, all, all-append, arith, Option-cases, inl, inr,
  is_empty, is_some, Has, count-Has, length-Has,
}
use native.Mathlib.Decide.{dec_lt}
use k8s_lab_vmware.Prelude.Result.{ok}
use k8s_lab_vmware.Regression.{Finding, Collection, Gate, NodeSummary, Quality}
use k8s_lab_vmware.Regression.Policy.{Setting, Thresholds, load_policy}
use k8s_lab_vmware.Regression.Policy.Strict.{IsStrict, load_policy-IsStrict}
use k8s_lab_vmware.Regression.Scope.{scope_evidence, completed}
use k8s_lab_vmware.Regression.Findings.{
  rank, is_risk, is_crit, is_warn, finding_identity, findings_delta, finding_gates, after_is,
  Change, safe_change, new_risk, current_exceeded,
}
use k8s_lab_vmware.Regression.Findings.Last.{last_with}
use k8s_lab_vmware.Regression.Findings.Compare.{findings_delta_complete}
use k8s_lab_vmware.Regression.Cis.{cis_gate, cis_exceeded, compare_reports}
use k8s_lab_vmware.Regression.Gates.{
  node_gate, node_exceeded, operational_gate, operational_of, Operational, operational_exceeded,
  quality_gate, quality_increase, performance_gate, scope_blocked_gates, increases,
  performance_exceeded, increase_missing, coverage_drop,
}
use k8s_lab_vmware.Regression.Evaluate.{scope_gates, content_gates, report_of}
use k8s_lab_vmware.Regression.Evaluate.Ready.{clear, release_ready-all}
use k8s_lab_vmware.Regression.Evaluate.Gated.{
  clear_cis, clear_findings, clear_node, clear_operational, clear_performance, clear_quality,
  clear_scope,
}

-- What the mandatory gates of a ready release have established, for a strict policy.
pub record Released (t : Thresholds) (v : Bool) (before after : Collection) : Type 0 where
  pub same_scope : (scope_evidence before after).same_scope ≡ true
  pub completed_before : completed before ≡ true
  pub completed_after : completed after ≡ true
  pub artifacts : v ≡ true → (before.artifacts_ok ≡ true) × (after.artifacts_ok ≡ true)
  pub new_critical :
      count (after_is is_crit) (findings_delta before after).new_risks ≤ t.new_critical
  pub new_warnings :
      count (after_is is_warn) (findings_delta before after).new_risks ≤ t.new_warnings
  pub regressions :
      length (findings_delta before after).severity_regressions ≤ t.severity_regressions
  pub losses : length (findings_delta before after).evidence_loss ≤ t.evidence_loss
  pub current : current_exceeded t (findings_delta before after) ≡ false
  pub cis_controls : (is_empty before.cis.controls ≡ false) × (is_empty after.cis.controls ≡ false)
  pub cis_within :
      is_empty (cis_exceeded t before.cis after.cis (compare_reports before.cis after.cis).changes)
      ≡ true
  pub nodes :
      (old : NodeSummary) × (new : NodeSummary) × (before.node_summary ≡ some old)
      × (after.node_summary ≡ some new)
      × (is_some (coverage_drop old.metrics_coverage new.metrics_coverage) ≡ true)
      × (is_empty (node_exceeded t before after old new) ≡ true)
  pub operational :
      (old : Operational) × (new : Operational) × (operational_of before.manifest before.versions
        ≡ some old)
      × (operational_of after.manifest after.versions ≡ some new)
      × (is_empty (operational_exceeded t old new) ≡ true)
  pub quality :
      (old : Quality) × (new : Quality) × (before.quality ≡ some old)
      × (after.quality ≡ some new)
      × (quality_increase old new ≤ t.quality_regression)
  pub performance :
      (increase_missing (increases before after) ≡ false)
      × (is_empty (performance_exceeded t (increases before after)) ≡ true)

and_split : (a b : Bool) → (a && b) ≡ true → (a ≡ true) × (b ≡ true)
and_split a b h = ground arith

five_clear :
    (a b c d e : Gate)
    → all clear (a ∷ b ∷ c ∷ d ∷ e ∷ []) ≡ true
    → (clear a ≡ true) × (clear b ≡ true) × (clear c ≡ true) × (clear d ≡ true) × (clear e ≡ true)
five_clear a b c d e h = ground arith

clear_content :
    (t : Thresholds) (before after : Collection)
    → all clear (content_gates t before after) ≡ true
    → (all clear (finding_gates (findings_delta before after) t) ≡ true)
      × ((clear (cis_gate before after t).0 ≡ true)
          × (clear (node_gate before after t) ≡ true)
          × (clear (operational_gate before after t) ≡ true)
          × (clear (quality_gate before after t) ≡ true)
          × (clear (performance_gate before after t) ≡ true))
unfolding content_gates
clear_content t before after h =
    let findings = finding_gates (findings_delta before after) t in
    let others =
      (cis_gate before after t).0
      ∷ node_gate before after t
      ∷ operational_gate before after t
      ∷ quality_gate before after t
      ∷ performance_gate before after t
      ∷ [] in
    let (f, rest) =
      and_split (all clear findings) (all clear others)
        (sym (all-append clear findings others) ∙ h) in
    (
      f,
      five_clear (cis_gate before after t).0 (node_gate before after t)
          (operational_gate before after t) (quality_gate before after t)
          (performance_gate before after t) rest,
    )

released :
    (t : Thresholds) (v : Bool) (before after : Collection)
    → IsStrict t
    → ((scope_evidence before after).same_scope ≡ true)
      × (completed before ≡ true)
      × (completed after ≡ true)
      × (v ≡ true → (before.artifacts_ok ≡ true) × (after.artifacts_ok ≡ true))
    → all clear (
        if (scope_evidence before after).same_scope
        then content_gates t before after
        else scope_blocked_gates)
      ≡ true
    → Released t v before after
unfolding node_gate operational_gate quality_gate
released t v before after s (same, old_done, new_done, valid) h =
    let (f, (c, n, o, q, p)) = clear_content t before after (rw same at h) in
    let (crits, warns, regs, gaps, cur) = clear_findings (findings_delta before after) t f in
    let (present, within) = clear_cis before after t s.cis c in
    record {
      same_scope = same;
      completed_before = old_done;
      completed_after = new_done;
      artifacts = valid;
      new_critical = crits;
      new_warnings = warns;
      regressions = regs;
      losses = gaps;
      current = cur;
      cis_controls = present;
      cis_within = within;
      nodes = clear_node t before after before.node_summary after.node_summary s.operational n;
      operational =
          clear_operational t (operational_of before.manifest before.versions)
            (operational_of after.manifest after.versions) s.operational o;
      quality = clear_quality t before.quality after.quality q;
      performance = clear_performance before after t p;
    }

-- For a policy that loads: a report that calls the release ready has compared two completed
-- collections of one cluster and namespace scope, with validated artifacts where validation is
-- asked for, and found each quantity of the findings, CIS, node, operational, quality and
-- performance gates present and within the limits of the policy.
pub report_of-Released :
    (profile : Option (Dict Setting)) (t : Thresholds) (v : Bool) (before after : Collection)
    → load_policy profile ≡ ok t
    → (report_of t v before after).ready ≡ true
    → Released t v before after
unfolding report_of
report_of-Released profile t v before after loaded h =
    let s = load_policy-IsStrict profile t loaded in
    let first = scope_gates t v before after in
    let rest =
      if (scope_evidence before after).same_scope
      then content_gates t before after
      else scope_blocked_gates in
    let (p, q) =
      and_split (all clear first) (all clear rest)
        (sym (all-append clear first rest) ∙ (sym (release_ready-all (first ++ rest)) ∙ h)) in
    released t v before after s (clear_scope t v before after s p) q

-- A new risk counts under one of the two limits.
unlisted :
    (item : Finding) (risks : List Change)
    → is_risk item.severity ≡ true
    → Has (safe_change new_risk item none) risks
    → count (after_is is_crit) risks ≤ 0
    → count (after_is is_warn) risks ≤ 0
    → ⊥
unfolding safe_change
unlisted item risks risk h c w =
    let change = safe_change new_risk item none in
    ground (
      arith,
      count-Has (after_is is_crit) change risks h,
      count-Has (after_is is_warn) change risks h,
    )

-- For a policy that loads and that allows no new risk and no severity regression, in a report that
-- calls the release ready: every current risk (CRIT or WARN) that has an identity, and is the last
-- of its collection with it, was in the earlier collection, the last finding with that identity
-- there having at least the same severity rank.
pub report_of-no_new_risk :
    (profile : Option (Dict Setting)) (t : Thresholds) (v : Bool) (before after : Collection)
    → load_policy profile ≡ ok t
    → (t.new_critical ≡ 0) × (t.new_warnings ≡ 0) × (t.severity_regressions ≡ 0)
    → (report_of t v before after).ready ≡ true
    → (item : Finding) → (finding_identity item == "") ≡ false
    → last_with (finding_identity item) after.findings ≡ some item
    → is_risk item.severity ≡ true
    → (previous : Finding) × (last_with (finding_identity item) before.findings ≡ some previous)
      × (rank item.severity ≤ rank previous.severity)
report_of-no_new_risk profile t v before after loaded (z0, z1, z2) h item named here risk =
    let r = report_of-Released profile t v before after loaded h in
    let (fresh, kept) = findings_delta_complete before after item named here in
    elim (Option-cases (last_with (finding_identity item) before.findings)) [
      | inl absent ↦ absurd (
          unlisted item (findings_delta before after).new_risks risk ((fresh absent).0 risk)
            (omega (arith, r.new_critical, z0)) (omega (arith, r.new_warnings, z1)))
      | inr (previous, found) ↦ (
        previous,
        found,
        elim (dec_lt (rank previous.severity) (rank item.severity)) [
          | yes p ↦ absurd (
              omega (
                arith,
                length-Has _ (findings_delta before after).severity_regressions
                    ((kept previous found).0 p),
                r.regressions,
              ))
          | no p ↦ omega arith
        ],
      )
    ]
