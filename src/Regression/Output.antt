-- ===== src/Regression/Output.antt =====
-- `junit_xml` and `sarif` of tools/eks-assessment/src/regression_validation.py, as the test cases
-- and results that the two documents list.
pub mod Agreement
use k8s_lab_vmware.Prelude.{
  ℕ, String, List, [], ◌∷◌, map, Bool, not, ◌&&◌, Option, none, some, if◌then◌else◌, length, keep,
  or_text,
}
use k8s_lab_vmware.Regression.{Status, Gate}
use k8s_lab_vmware.Regression.Evaluate.{is_passed, is_failed}

-- `item.get("mandatory") and item.get("status") != "PASS"`
abbrev pub blocking : Gate → Bool
blocking g = g.mandatory && not (is_passed g.status)

pub record TestCase : Type 0 where
  pub classname : String
  pub name : String
  pub failure : Option Status

pub record TestSuite : Type 0 where
  pub tests : ℕ
  pub failures : ℕ
  pub cases : List TestCase

unfoldable pub test_case : Gate → TestCase
test_case g = record {
  classname = or_text g.category "Regression";
  name = or_text g.gate_id "unknown";
  failure = if blocking g then some g.status else none;
}

unfoldable pub junit_xml : List Gate → TestSuite
unfolding test_case
junit_xml gates = record {
  tests = length gates;
  failures = length (keep blocking gates);
  cases = map test_case gates;
}

pub data Level : Type 0 where
  error warning : Level

pub record SarifResult : Type 0 where
  pub rule_id : String
  pub level : Level

abbrev pub level_of : Status → Level
level_of s = if is_failed s then error else warning

unfoldable pub sarif_rules : List Gate → List String
sarif_rules gates = map (λ g. or_text g.gate_id "regression.unknown") gates

unfoldable pub sarif_results : List Gate → List SarifResult
sarif_results [] = []
sarif_results (g ∷ gates) =
    if blocking g
    then record { rule_id = or_text g.gate_id "regression.unknown"; level = level_of g.status }
      ∷ sarif_results gates
    else sarif_results gates
