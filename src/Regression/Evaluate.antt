-- ===== src/Regression/Evaluate.antt =====
-- `evaluate` of tools/eks-assessment/src/regression_validation.py. `read` gives the collection of a
-- directory, if there is one; `artifact_validation` of provider_validation.py has set the field
-- `artifacts_ok` of a collection.
mod Gated
pub mod Ready
pub mod Clear
use k8s_lab_vmware.Prelude.{
  String, List, [], ◌∷◌, ◌++◌, Bool, true, false, ◌&&◌, Option, some, if◌then◌else◌, ◌==◌, Dict,
  all, any, keep, take, length, ltb,
}
use k8s_lab_vmware.Prelude.Result.{Result, ok, err, ◌>>=◌, ◌>>◌, refuse}
use k8s_lab_vmware.Regression.{Collection, Status, passed, failed, warned, Gate, gate}
use k8s_lab_vmware.Regression.Policy.{Setting, Thresholds, PolicyError, load_policy}
use k8s_lab_vmware.Regression.Scope.{Scope, scope_evidence, completed}
use k8s_lab_vmware.Regression.Findings.{Change, Delta, findings_delta, finding_gates}
use k8s_lab_vmware.Regression.Cis.{ControlChange, cis_gate}
use k8s_lab_vmware.Regression.Gates.{
  node_gate, operational_gate, quality_gate, performance_gate, scope_blocked_gates,
}

pub data Error : Type 0 where
  no_directory same_directory : Error
  policy : PolicyError → Error

-- PASS, or else FAIL where the policy requires the evidence and WARN where it does not.
abbrev pub required_status : Bool → Bool → Status
required_status fine required = if fine then passed else (if required then failed else warned)

unfoldable pub scope_gates :
    Thresholds → (validate_artifacts : Bool) → Collection → Collection → List Gate
scope_gates t validate_artifacts before after =
    gate "comparison.scope" "Comparison"
      (required_status (scope_evidence before after).same_scope t.require_same_cluster)
      t.require_same_cluster
    ∷ gate "collections.terminal-state" "Collection"
        (required_status (completed before && completed after) t.require_completed)
        t.require_completed
    ∷ (if validate_artifacts
        then gate "artifacts.integrity" "Artifacts"
            (required_status (before.artifacts_ok && after.artifacts_ok) t.require_integrity)
            t.require_integrity
          ∷ []
        else [])

abbrev pub empty_delta : Delta
empty_delta = record {
  new_risks = [];
  severity_regressions = [];
  evidence_loss = [];
  resolved_risks = [];
  current = [];
}

-- The gates that compare the contents of the two collections.
unfoldable pub content_gates : Thresholds → Collection → Collection → List Gate
content_gates t before after =
    finding_gates (findings_delta before after) t
    ++ ((cis_gate before after t).0
        ∷ node_gate before after t
        ∷ operational_gate before after t
        ∷ quality_gate before after t
        ∷ performance_gate before after t
        ∷ [])

abbrev pub is_passed : Status → Bool
is_passed passed = true
is_passed _ = false

abbrev pub is_failed : Status → Bool
is_failed failed = true
is_failed _ = false

abbrev pub is_warned : Status → Bool
is_warned warned = true
is_warned _ = false

abbrev pub mandatory_of : List Gate → List Gate
mandatory_of gates = keep (λ g. g.mandatory) gates

unfoldable pub release_ready : List Gate → Bool
release_ready gates = all (λ g. is_passed g.status) (mandatory_of gates)

unfoldable pub overall_state : List Gate → Status
overall_state gates =
    if any (λ g. is_failed g.status) (mandatory_of gates)
    then failed
    else if any (λ g. is_warned g.status) (mandatory_of gates)
    then warned
    else passed

pub record Report : Type 0 where
  pub scope : Scope
  pub policy : Thresholds
  pub state : Status
  pub ready : Bool
  pub delta : Delta
  pub changes : List Change
  pub changes_truncated : Bool
  pub cis_changes : List ControlChange
  pub gates : List Gate

unfoldable pub report_of :
    Thresholds → (validate_artifacts : Bool) → Collection → Collection → Report
report_of t validate_artifacts before after =
    let scope = scope_evidence before after in
    let delta = if scope.same_scope then findings_delta before after else empty_delta in
    let gates =
      scope_gates t validate_artifacts before after
      ++ (if scope.same_scope then content_gates t before after else scope_blocked_gates) in
    let changes =
      delta.new_risks
      ++ (delta.severity_regressions ++ (delta.evidence_loss ++ delta.resolved_risks)) in
    record {
      scope = scope;
      policy = t;
      state = overall_state gates;
      ready = release_ready gates;
      delta = delta;
      changes = take 500 changes;
      changes_truncated = ltb 500 (length changes);
      cis_changes = take 500 (if scope.same_scope then (cis_gate before after t).1 else []);
      gates = gates;
    }

abbrev pub policy_result : Result PolicyError Thresholds → Result Error Thresholds
policy_result (ok t) = ok t
policy_result (err e) = err (policy e)

abbrev pub evaluate_read :
    Option Collection
    → Option Collection
    → Bool
    → Result Error Thresholds
    → Bool
    → Result Error Report
evaluate_read (some before) (some after) same loaded validate_artifacts = do
  refuse same same_directory
  t ← loaded
  ok (report_of t validate_artifacts before after)
evaluate_read _ _ same loaded validate_artifacts = err no_directory

unfoldable pub evaluate :
    (read : String → Option Collection) (before_path after_path : String)
    → Option (Dict Setting)
    → (validate_artifacts : Bool) → Result Error Report
evaluate read before_path after_path profile validate_artifacts =
    evaluate_read (read before_path) (read after_path) (before_path == after_path)
      (policy_result (load_policy profile)) validate_artifacts
