-- ===== src/Provider/Applicability.antt =====
-- `applicability_gate` of tools/eks-assessment/src/provider_validation.py: the rules that apply to
-- another provider than the expected one, or pass without evidence.
use k8s_lab_vmware.Prelude.{
  String, List, [], ◌∷◌, ◌++◌, Bool, not, ◌&&◌, ◌||◌, Option, none, some, if◌then◌else◌, ◌==◌, mem,
  any, get_or, is_empty, has_prefix, is_some,
}
use Prim.Native.String.{◌++◌ as text_append}
use k8s_lab_vmware.Prelude.Result.{Result, ok, ◌>>=◌}
use k8s_lab_vmware.Json.Access.{Raised, is_text, dicts_in, dicts_or_empty}
use k8s_lab_vmware.Json.{array, object, nil, Fields, get}
use k8s_lab_vmware.Provider.{Builtins, Documents, nested, text_at}

pub data Violation : Type 0 where
  generic_cloud_rules expected_rules_missing foreign_rule pass_without_applicability : Violation
  rules_missing foreign_rule_active pass_without_evidence : (provider : String) → Violation
  cis_missing managed_responsibility generic_control_plane : (control_id : String) → Violation

abbrev pub managed : List String
managed = "eks" ∷ "aks" ∷ "gke" ∷ []

abbrev pub control_plane_controls : List String
control_plane_controls = "cis.k8s.control-plane.api-server" ∷ "cis.k8s.control-plane.etcd" ∷ []

abbrev pub each {ℓ} : {A : Type ℓ} → (A → List Violation) → List A → List Violation
each f [] = []
each f (x ∷ xs) = f x ++ each f xs

abbrev pub when : Bool → Violation → List Violation
when test v = if test then v ∷ [] else []

module _ (b : Builtins) (expected : String) where
  abbrev pub cloud_rule : Fields → List Violation
  cloud_rule item =
      when
        (not (
          has_prefix (text_append "bestpractice." (text_append expected "."))
            (text_at b "ruleId" "" item)))
        foreign_rule
      ++ when
          (is_text (get "status" item) "PASS"
            && not (is_text (get "applicability" item) "APPLICABLE"))
          pass_without_applicability

  unfoldable pub cloud_violations : List Fields → List Violation
  unfolding has_prefix
  cloud_violations rules =
      when ((expected == "generic-kubernetes") && not (is_empty rules)) generic_cloud_rules
      ++ (if mem expected managed
          then when (is_empty rules) expected_rules_missing ++ each cloud_rule rules
          else [])

  abbrev pub operational_rule : Fields → List Violation
  operational_rule item =
      let provider = text_at b "provider" "" item in
      let status = text_at b "status" "" item in
      let applicability = text_at b "applicability" "" item in
      when
        (mem provider managed
          && (not (provider == expected)
              && not ((status == "N/A") && (applicability == "NOT_APPLICABLE"))))
        (foreign_rule_active provider)
      ++ when
          ((provider == expected) && ((status == "PASS") && not (applicability == "APPLICABLE")))
          (pass_without_evidence provider)

  unfoldable pub operational_violations : List Fields → List Violation
  operational_violations rules =
      each (λ p. when (not (any (λ r. text_at b "provider" "" r == p) rules)) (rules_missing p))
        managed
      ++ each operational_rule rules

  -- The last control of an id is the one in the dictionary.
  unfoldable pub control_of : String → List Fields → Option Fields
  control_of id [] = none
  control_of id (c ∷ cs) =
      let rest = control_of id cs in
      if is_some rest then rest else if text_at b "controlId" "" c == id then some c else none

  abbrev pub control_violations : String → Option Fields → List Violation
  control_violations id none = cis_missing id ∷ []
  control_violations id (some c) =
      if mem expected managed
      then when
          (not (
            is_text (get "applicability" c) "MANAGED_PROVIDER"
            && (is_text (get "status" c) "N/A"
                && is_text (get "managedResponsibility" c) "CLOUD_PROVIDER")))
          (managed_responsibility id)
      else when
          (is_text (get "status" c) "PASS" || is_text (get "applicability" c) "MANAGED_PROVIDER")
          (generic_control_plane id)

  -- The violations, as a list with repetitions.
  unfoldable pub violations_of : Documents → Result Raised (List Violation)
  unfolding cloud_violations operational_violations control_of
  violations_of d = do
    cloud_rules ← dicts_or_empty (get "bestPractices" d.cloud)
    operational_rules ←
        dicts_in
          (get_or (nested ("bestPractices" ∷ "rules" ∷ []) (object d.operational)) (array nil))
    controls ← dicts_or_empty (get "controls" d.cis)
    ok (
        cloud_violations cloud_rules
        ++ (operational_violations operational_rules
            ++ each (λ id. control_violations id (control_of id controls)) control_plane_controls))
