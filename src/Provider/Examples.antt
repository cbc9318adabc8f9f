-- ===== src/Provider/Examples.antt =====
-- A generic cluster that is ready for release.
use k8s_lab_vmware.Prelude.{
  ℕ, String, List, [], ◌∷◌, ◌≡◌, ◌↔◌, refl, true, false, Option, none, some, mem, has_prefix,
}
use k8s_lab_vmware.Prelude.Int.{ℤ, pos}
use k8s_lab_vmware.Prelude.Rounding.{round_div}
use k8s_lab_vmware.Prelude.Result.{ok}
use k8s_lab_vmware.Json.Access.{object_or_empty, objects}
use k8s_lab_vmware.Json.{
  Value, boolean, integer, text, array, object, Items, nil, cons, Fields, end, field, number_of,
  get, same_value, same_number, below, scaled,
}
use k8s_lab_vmware.Provider.{
  Builtins, Documents, gate, passed, not_applicable, terminal_state, detection, integrity,
  read_only, data_protection, applicability, quality, kubernetes_coverage, cloud_api, budget,
  nested, is_terminal, agrees, has_quality,
}
use k8s_lab_vmware.Provider.Safety.{
  forbidden_in, has_value, contains, any_mutates, values, keys_of, characters, set_of, only_from,
  is_read_only, keep_alnum, normalized_key, is_protected,
}
use k8s_lab_vmware.Provider.Applicability.{
  cloud_violations, operational_violations, control_of, violations_of,
}
use k8s_lab_vmware.Provider.Evaluate.{
  Report, pass, default_thresholds, percent_of, budget_status, report_of, cloud_gates_of, gates_of,
  states_of, coverage_percent, cloud_gates, metrics_of, readings_of, evaluate,
}
use k8s_lab_vmware.Provider.Ready.{evaluate-ready_state}
use k8s_lab_vmware.Provider.Certified.{IsCertified, evaluate-IsCertified}

abbrev int_of : Value → Option ℤ
int_of (integer n) = some n
int_of _ = none

abbrev python : Builtins
python = record {
  str_of = λ v. "?";
  int_of = int_of;
  float_of = number_of;
  upper = λ s. s;
  lower = λ s. s;
  is_alnum = λ c. true;
}

abbrev fields : List (String × Value) → Fields
fields [] = end
fields ((k, v) ∷ rest) = field k v (fields rest)

abbrev items : List Value → Items
items [] = nil
items (v ∷ rest) = cons v (items rest)

abbrev whole : ℕ → Value
whole n = integer (pos n)

abbrev metadata : Fields
metadata = fields (
    ("status", text "COMPLETED")
    ∷ ("completed", boolean true)
    ∷ ("performance", object (fields (("durationSeconds", whole 60) ∷ [])))
    ∷ [])

abbrev request_budget : Value
request_budget = object (
    fields (
      ("requests", whole 40)
      ∷ ("responseBytes", whole 9000)
      ∷ ("retries", whole 0)
      ∷ ("throttles", whole 0)
      ∷ []))

abbrev comprehensive : Fields
comprehensive = fields (
    ("readOnly", boolean true)
    ∷ (
      "safety",
      object (
          fields (
            ("mutations", whole 0)
            ∷ ("kubectlVerbs", array (items (text "get" ∷ text "list" ∷ [])))
            ∷ [])),
    )
    ∷ (
      "quality",
      object (
          fields (
            ("stableIdentityDuplicates", whole 0)
            ∷ ("conflictingSeverities", whole 0)
            ∷ ("lowConfidencePasses", whole 0)
            ∷ [])),
    )
    ∷ (
      "collection",
      object (
          fields (
            (
              "resources",
              object (fields (("pods", object (fields (("state", text "AVAILABLE") ∷ []))) ∷ [])),
            )
            ∷ [])),
    )
    ∷ (
      "performance",
      object
          (fields (("requestBudget", request_budget) ∷ ("processPeakRssBytes", whole 1000) ∷ [])),
    )
    ∷ [])

abbrev cloud : Fields
cloud = fields (
    ("readOnly", boolean true)
    ∷ ("provider", text "generic-kubernetes")
    ∷ ("state", text "N/A")
    ∷ (
      "safety",
      object (
          fields (
            ("operations", array (items (text "get" ∷ [])))
            ∷ ("credentialsPersisted", boolean false)
            ∷ ("rawPayloadsPersisted", boolean false)
            ∷ ("accountIdentifiers", text "omitted")
            ∷ ("requests", whole 0)
            ∷ [])),
    )
    ∷ [])

abbrev control : String → Value
control id = object (fields (("controlId", text id) ∷ []))

abbrev cis : Fields
cis = fields (
    ("readOnly", boolean true)
    ∷ (
      "controls",
      array (
          items (
            control "cis.k8s.control-plane.api-server"
            ∷ control "cis.k8s.control-plane.etcd"
            ∷ [])),
    )
    ∷ [])

abbrev foreign : String → Value
foreign provider = object (
    fields (
      ("provider", text provider)
      ∷ ("status", text "N/A")
      ∷ ("applicability", text "NOT_APPLICABLE")
      ∷ []))

abbrev operational : Fields
operational = fields (
    ("readOnly", boolean true)
    ∷ ("platform", text "generic-kubernetes")
    ∷ (
      "bestPractices",
      object (
          fields
            (("rules", array (items (foreign "eks" ∷ foreign "aks" ∷ foreign "gke" ∷ []))) ∷ [])),
    )
    ∷ [])

abbrev documents : Documents
documents = record {
  metadata = metadata;
  comprehensive = comprehensive;
  aws = fields (("readOnly", boolean true) ∷ []);
  cloud = cloud;
  cis = cis;
  operational = operational;
}

abbrev report : Report
report = record {
  state = pass;
  release_ready = true;
  gates =
      gate terminal_state passed
      ∷ gate detection passed
      ∷ gate integrity passed
      ∷ gate read_only passed
      ∷ gate data_protection passed
      ∷ gate applicability passed
      ∷ gate quality passed
      ∷ gate kubernetes_coverage passed
      ∷ record { id = cloud_api; status = not_applicable; mandatory = false }
      ∷ gate budget passed
      ∷ [];
}

evaluated :
    evaluate python default_thresholds "generic-kubernetes" "generic-kubernetes" true documents
    ≡ ok report
unfolding evaluate readings_of metrics_of cloud_gates coverage_percent states_of gates_of
    cloud_gates_of report_of budget_status percent_of round_div violations_of control_of
    operational_violations cloud_violations has_quality is_protected forbidden_in normalized_key
    keep_alnum is_read_only agrees is_terminal only_from set_of characters keys_of values
    any_mutates contains has_value nested same_value same_number below scaled get objects
    object_or_empty mem has_prefix
evaluated = refl

evaluate-ready_state_example : (report.release_ready ≡ true) ↔ (report.state ≡ pass)
evaluate-ready_state_example =
    evaluate-ready_state python default_thresholds "generic-kubernetes" "generic-kubernetes" true
      documents report evaluated

evaluate-IsCertified_example :
    IsCertified python default_thresholds "generic-kubernetes" "generic-kubernetes" true documents
evaluate-IsCertified_example =
    evaluate-IsCertified python default_thresholds "generic-kubernetes" "generic-kubernetes" true
      documents report evaluated refl
