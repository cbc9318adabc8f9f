-- ===== src/Contracts/Collection/Accepted.antt =====
-- What a collection that passes the contracts holds.
use k8s_lab_vmware.Prelude.{
  ℕ, ◌+◌, String, List, [], ◌∷◌, map, ◌≡◌, ◌↔◌, refl, Bool, false, Option, none, some,
  if◌then◌else◌, length, count, arith, All,
}
use k8s_lab_vmware.Json.{Value}
use k8s_lab_vmware.Contracts.Schema.{Error, validate_value}
use k8s_lab_vmware.Contracts.Schema.Conforms.{Conforms, validate_value-Conforms}
use k8s_lab_vmware.Contracts.Collection.{
  File, absent, unreadable, decoded, SchemaFile, no_file, invalid, loaded, passed, contract,
  Artifact, schema_files, terminal, result_at, is_required, failures_of, present_result,
  check_artifact, with_result, with_error, results, absent_schemas, is_failed, report_from,
  validate_collection,
}

module _ (matches : String → String → Bool) where
  -- The schema is there; the document is absent and not required, or both are read and the document
  -- conforms.
  abbrev pub Accepts : SchemaFile → File → (required : Bool) → Type 0
  Accepts no_file document required = ⊥
  Accepts schema absent required = required ≡ false
  Accepts (loaded s) (decoded v) required = Conforms matches s v
  Accepts _ _ required = ⊥

-- What one round adds to the count of failures.
abbrev failed_rounds : Option Artifact → ℕ
failed_rounds none = 1
failed_rounds (some r) = if is_failed r then 1 else 0

failing_iff :
    (artifact name : String) (errors : List Error)
    → (failed_rounds (some (present_result artifact name (map contract errors))) ≡ 0)
      ↔ (errors ≡ [])
failing_iff artifact name [] = (λ h. refl, λ h. refl)
failing_iff artifact name (e ∷ es) = (λ h. absurd (omega arith), λ h. cc)

round_count :
    (o : Option Artifact) (name : String) (rs : List Artifact) (es : List String)
    → count is_failed (with_result o rs) + length (with_error o name es)
      ≡ failed_rounds o + (count is_failed rs + length es)
round_count none name rs es = omega arith
round_count (some r) name rs es = ground arith

sum_iff : (a b : ℕ) {P Q : Type 0} → (a ≡ 0) ↔ P → (b ≡ 0) ↔ Q → (a + b ≡ 0) ↔ (P × Q)
sum_iff a b e f =
    (λ h. (e.0 (omega arith), f.0 (omega arith)), λ h. omega (arith, e.1 h.0, f.1 h.1))

passed_iff :
    (t : Bool) (rs : List Artifact) (es : List String)
    → ((report_from t rs es).state ≡ passed) ↔ (count is_failed rs + length es ≡ 0)
unfolding report_from
passed_iff t rs es = ground arith

module _ (matches : String → String → Bool) where
  round_iff :
      (schema : SchemaFile) (document : File) (required : Bool) (artifact name : String)
      → (failed_rounds (check_artifact matches schema document required artifact name) ≡ 0)
        ↔ Accepts matches schema document required
  unfolding check_artifact failures_of
  round_iff no_file document required artifact name = (λ h. absurd (omega arith), λ h. absurd h)
  round_iff invalid absent required artifact name = ground arith
  round_iff (loaded s) absent required artifact name = ground arith
  round_iff invalid unreadable required artifact name = (λ h. absurd (omega arith), λ h. absurd h)
  round_iff (loaded s) unreadable required artifact name =
      (λ h. absurd (omega arith), λ h. absurd h)
  round_iff invalid (decoded v) required artifact name = (λ h. absurd (omega arith), λ h. absurd h)
  round_iff (loaded s) (decoded v) required artifact name =
      let e = failing_iff artifact name (validate_value matches s v []) in
      let c = validate_value-Conforms matches s v [] in (λ h. c.0 (e.0 h), λ h. e.1 (c.1 h))

  module _ (str_of : Value → String) (document : String → File)
      (schema_of : String → SchemaFile) where
    abbrev pub Accepted : String × String → Type 0
    Accepted (artifact, name) =
        Accepts matches (schema_of name) (document artifact) (is_required str_of document artifact)

    failures_iff :
        (files : List (String × String))
        → (count is_failed (results matches str_of document schema_of files)
              + length (absent_schemas matches str_of document schema_of files)
            ≡ 0)
          ↔ All Accepted files
    unfolding results absent_schemas
    failures_iff [] = (λ h. tt, λ h. refl)
    failures_iff ((artifact, name) ∷ files) =
        let o = result_at matches str_of document schema_of artifact name in
        let rs = results matches str_of document schema_of files in
        let es = absent_schemas matches str_of document schema_of files in
        rw (round_count o name rs es) (
          sum_iff (failed_rounds o) (count is_failed rs + length es)
            (round_iff (schema_of name) (document artifact) (is_required str_of document artifact)
              artifact name)
            (failures_iff files))

    state_iff :
        (t : Bool) (files : List (String × String))
        → ((report_from t
              (results matches str_of document schema_of files)
              (absent_schemas matches str_of document schema_of files)).state
            ≡ passed)
          ↔ All Accepted files
    state_iff t files =
        let rs = results matches str_of document schema_of files in
        let es = absent_schemas matches str_of document schema_of files in
        (
          λ h. (failures_iff files).0 ((passed_iff t rs es).0 h),
          λ h. (passed_iff t rs es).1 ((failures_iff files).1 h),
        )

    -- A collection passes the contracts exactly if, for each artifact of `SCHEMA_FILES`, the schema
    -- is there, and the artifact is absent and not required, or is read and conforms to its schema,
    -- which is read too.
    pub validate_collection-Accepted :
        ((validate_collection matches str_of document schema_of).state ≡ passed)
        ↔ All Accepted schema_files
    unfolding validate_collection
    validate_collection-Accepted = state_iff (terminal (document "metadata.json")) schema_files
