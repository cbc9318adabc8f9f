-- ===== src/Manifests/Evaluate.antt =====
-- `evaluate_collection` of tools/eks-assessment/src/manifest_schema_validation.py: the manifests of
-- the decoded file, the loop over them, and the report.
use k8s_lab_vmware.Prelude.{
  ℕ, suc, String, List, [], ◌∷◌, ◌++◌, Bool, not, ◌&&◌, Option, none, some, if◌then◌else◌, ◌==◌,
  any, nat_eq, count,
}
use k8s_lab_vmware.Prelude.Result.{Result, ok, ◌>>=◌}
use k8s_lab_vmware.Json.{Value, object, Fields, get}
use k8s_lab_vmware.Json.Access.{dicts_or_empty, Raised, objects}
use k8s_lab_vmware.Manifests.{Finding, is_critical, Resources, metadata_of}
use k8s_lab_vmware.Manifests.Checks.{text_at, kind_of, name_of, check_manifest}

abbrev pub items_of : Value → Option Value
items_of (object fs) = get "items" fs
items_of _ = none

-- Iterating over a text or over the keys of an object gives no object.
unfoldable pub manifests_of : Value → Result Raised (List Fields)
unfolding get objects
manifests_of source = dicts_or_empty (items_of source)

pub record Identity : Type 0 where
  pub namespace : String
  pub kind : String
  pub name : String

abbrev pub same_identity : Identity → Identity → Bool
same_identity a b = a.namespace == b.namespace && (a.kind == b.kind && a.name == b.name)

pub record Tally : Type 0 where
  pub findings : List Finding
  pub checked : ℕ
  pub served : ℕ

abbrev pub nothing_checked : Tally
nothing_checked = record { findings = []; checked = 0; served = 0 }

abbrev pub with_check : List Finding × Bool → Tally → Tally
with_check (findings, served) t = record {
  findings = findings ++ t.findings;
  checked = suc t.checked;
  served = if served then suc t.served else t.served;
}

pub data State : Type 0 where
  failed warned partial : State

pub record Report : Type 0 where
  pub state : State
  pub manifests : ℕ
  pub critical : ℕ
  pub warnings : ℕ
  pub served_checks : ℕ
  pub findings : List Finding

unfoldable pub report_of : Tally → Report
report_of t =
    let critical = count is_critical t.findings in
    let warnings = count (λ f. not (is_critical f)) t.findings in
    record {
      state =
          if not (nat_eq critical 0)
          then failed
          else if not (nat_eq warnings 0)
          then warned
          else partial;
      manifests = t.checked;
      critical = critical;
      warnings = warnings;
      served_checks = t.served;
      findings = t.findings;
    }

module _ (str_of : Value → String) where
  abbrev pub identity_of : Fields → Identity
  identity_of m = record {
    namespace = text_at str_of "namespace" "cluster" (metadata_of m);
    kind = kind_of str_of m;
    name = name_of str_of m;
  }

  abbrev pub is_seen : Fields → List Identity → Bool
  is_seen m identities = any (same_identity (identity_of m)) identities

  module _ (lower : String → String) (r : Resources) where
    -- A manifest whose identity was there before is passed over.
    abbrev pub check_new : Fields → List Identity → Result Raised (Option (List Finding × Bool))
    check_new m identities =
        if is_seen m identities
        then ok none
        else (do found ← check_manifest str_of lower r m; ok (some found))

    abbrev pub with_new : Option (List Finding × Bool) → Tally → Tally
    with_new none t = t
    with_new (some found) t = with_check found t

    abbrev pub add_identity : Fields → List Identity → List Identity
    add_identity m identities =
        if is_seen m identities then identities else identity_of m ∷ identities

    unfoldable pub check_manifests :
        (identities : List Identity) → List Fields → Result Raised Tally
    unfolding check_manifest
    check_manifests identities [] = ok nothing_checked
    check_manifests identities (m ∷ ms) = do
      found ← check_new m identities
      t ← check_manifests (add_identity m identities) ms
      ok (with_new found t)

    unfoldable pub evaluate_collection : Value → Result Raised Report
    unfolding manifests_of check_manifests report_of
    evaluate_collection source = do
      manifests ← manifests_of source
      t ← check_manifests [] manifests
      ok (report_of t)
