-- ===== src/Contracts/Collection.antt =====
-- `validate_document` and `validate_collection` of
-- tools/eks-assessment/src/assessment_contracts.py. The files of a collection and the schemas are
-- functions from names; `str_of` is Python's `str` of a decoded value.
pub mod Accepted
use Prim.Native.Char.{code}
use k8s_lab_vmware.Prelude.{
  ℕ, ◌+◌, ◌-◌, ◌*◌, String, List, [], ◌∷◌, ◌++◌, map, Bool, true, false, ◌&&◌, ◌||◌, Option, none,
  some, if◌then◌else◌, get_or, ◌==◌, mem, nat_eq, ltb, leb, length, count,
}
use k8s_lab_vmware.Json.{Value, boolean, text, object, Fields, end, get}
use k8s_lab_vmware.Contracts.Schema.{Schema, Error, validate_value}

pub data File : Type 0 where
  absent unreadable : File
  decoded : Value → File

pub data SchemaFile : Type 0 where
  no_file invalid : SchemaFile
  loaded : Schema → SchemaFile

pub data State : Type 0 where
  passed failed not_present : State

pub data Failure : Type 0 where
  unreadable_document invalid_schema required_absent : Failure
  contract : Error → Failure

pub record Artifact : Type 0 where
  pub artifact : String
  pub schema_name : String
  pub state : State
  pub failures : List Failure

-- `SCHEMA_FILES`
abbrev pub schema_files : List (String × String)
schema_files =
    ("metadata.json", "metadata.schema.json")
    ∷ ("comprehensive-assessment.json", "comprehensive-assessment.schema.json")
    ∷ ("cis-security-assessment.json", "cis-security-assessment.schema.json")
    ∷ ("operational-insights.json", "operational-insights.schema.json")
    ∷ ("provider-validation.json", "provider-validation.schema.json")
    ∷ ("regression-validation.json", "regression-validation.schema.json")
    ∷ ("application-manifests-sanitized.json", "application-manifests-sanitized.schema.json")
    ∷ ("manifest-schema-validation.json", "manifest-schema-validation.schema.json")
    ∷ ("node-process-evidence.json", "node-process-evidence.schema.json")
    ∷ ("collector-state.json", "collector-state.schema.json")
    ∷ ("configuration-metadata.json", "configuration-metadata.schema.json")
    ∷ ("configuration-references.json", "configuration-references.schema.json")
    ∷ ("traffic-paths.json", "traffic-paths.schema.json")
    ∷ ("state-data-readiness.json", "state-data-readiness.schema.json")
    ∷ ("migration-probes.json", "migration-probes.schema.json")
    ∷ ("blue-green-readiness.json", "blue-green-readiness.schema.json")
    ∷ ("migration-comparison.json", "migration-comparison.schema.json")
    ∷ ("migration-evidence.json", "migration-evidence.schema.json")
    ∷ []

abbrev pub terminal_required : List String
terminal_required =
    "metadata.json" ∷ "comprehensive-assessment.json" ∷ "cis-security-assessment.json"
    ∷ "operational-insights.json" ∷ "application-manifests-sanitized.json" ∷ []

abbrev pub blue_green_required : List String
blue_green_required =
    "configuration-references.json" ∷ "traffic-paths.json" ∷ "state-data-readiness.json"
    ∷ "migration-probes.json" ∷ "blue-green-readiness.json" ∷ []

abbrev pub flush : Option ℕ → List ℕ
flush none = []
flush (some n) = n ∷ []

-- `re.findall(r"\d+", text)` as numbers, for the ten digits; `current` is the number being read.
unfoldable pub numbers_from : (current : Option ℕ) → String → List ℕ
numbers_from current String.[] = flush current
numbers_from current (String.◌∷◌ c s) =
    let more = numbers_from (some (get_or current 0 * 10 + (code c - 48))) s in
    let rest = flush current ++ numbers_from none s in
    if leb 48 (code c) && leb (code c) 57 then more else rest

-- The tuple comparison, with zeros for numbers that are missing.
unfoldable pub at_least : List ℕ → (minimum : List ℕ) → Bool
at_least ns [] = true
at_least [] (m ∷ ms) = nat_eq m 0 && at_least [] ms
at_least (n ∷ ns) (m ∷ ms) = ltb m n || (nat_eq m n && at_least ns ms)

unfoldable pub version_at_least : String → (minimum : List ℕ) → Bool
unfolding numbers_from at_least
version_at_least value minimum = at_least (numbers_from none value) minimum

-- `value.upper() == name`, for a name in capital letters. No other letter than the 26 small ones has
-- a letter of COMPLETED as its capital.
unfoldable pub upper_is : String → (name : String) → Bool
upper_is String.[] String.[] = true
upper_is (String.◌∷◌ c s) (String.◌∷◌ d t) =
    nat_eq (if leb 97 (code c) && leb (code c) 122 then code c - 32 else code c) (code d)
    && upper_is s t
upper_is _ _ = false

abbrev pub fields_of : File → Fields
fields_of (decoded (object fs)) = fs
fields_of _ = end

abbrev pub is_true : Option Value → Bool
is_true (some (boolean b)) = b
is_true _ = false

abbrev pub is_completed_text : Option Value → Bool
is_completed_text (some (text s)) = upper_is s "COMPLETED"
is_completed_text _ = false

-- `metadata.get("completed") is True or str(metadata.get("status", "")).upper() == "COMPLETED"`
unfoldable pub terminal : File → Bool
unfolding upper_is
terminal metadata =
    is_true (get "completed" (fields_of metadata))
    || is_completed_text (get "status" (fields_of metadata))

abbrev pub failing : List Failure → State
failing [] = passed
failing (f ∷ fs) = failed

abbrev pub present_result : String → String → List Failure → Artifact
present_result artifact name fs = record {
  artifact = artifact;
  schema_name = name;
  state = failing fs;
  failures = fs;
}

abbrev pub absent_result : String → String → (required : Bool) → Artifact
absent_result artifact name required = record {
  artifact = artifact;
  schema_name = name;
  state = if required then failed else not_present;
  failures = if required then required_absent ∷ [] else [];
}

abbrev pub with_result : Option Artifact → List Artifact → List Artifact
with_result none rest = rest
with_result (some r) rest = r ∷ rest

abbrev pub with_error : Option Artifact → String → List String → List String
with_error none name rest = name ∷ rest
with_error (some r) name rest = rest

module _ (str_of : Value → String) where
  -- `str(value.get("schemaVersion", "0"))`, or "0" for a document that is no object.
  abbrev pub schema_version : File → String
  schema_version f = elim (get "schemaVersion" (fields_of f)) [ none ↦ "0" | some v ↦ str_of v ]

  -- Whether an artifact that is absent is missing from the collection.
  unfoldable pub is_required : (document : String → File) → String → Bool
  unfolding version_at_least
  is_required document artifact =
      artifact == "metadata.json"
      || (terminal (document "metadata.json")
          && (mem artifact terminal_required
              || ((artifact == "manifest-schema-validation.json"
                    && version_at_least (schema_version (document "operational-insights.json"))
                        (1 ∷ 3 ∷ []))
                  || (mem artifact blue_green_required
                      && version_at_least
                          (schema_version (document "comprehensive-assessment.json"))
                          (4 ∷ 1 ∷ [])))))

module _ (matches : String → String → Bool) where
  -- `validate_document`, for a document that is there.
  unfoldable pub failures_of : File → SchemaFile → List Failure
  failures_of (decoded v) (loaded s) = map contract (validate_value matches s v [])
  failures_of (decoded v) _ = invalid_schema ∷ []
  failures_of _ _ = unreadable_document ∷ []

  -- One round of the loop; `none` is a schema that is absent.
  unfoldable pub check_artifact :
      SchemaFile → File → Bool → (artifact name : String) → Option Artifact
  unfolding failures_of
  check_artifact no_file document required artifact name = none
  check_artifact schema absent required artifact name = some (absent_result artifact name required)
  check_artifact schema document required artifact name =
      some (present_result artifact name (failures_of document schema))

  module _ (str_of : Value → String) (document : String → File)
      (schema_of : String → SchemaFile) where
    abbrev pub result_at : String → String → Option Artifact
    result_at artifact name =
        check_artifact (schema_of name) (document artifact) (is_required str_of document artifact)
          artifact name

    -- The results and the absent schemas, in the order of the files.
    unfoldable pub results : List (String × String) → List Artifact
    unfolding check_artifact
    results [] = []
    results ((artifact, name) ∷ rest) = with_result (result_at artifact name) (results rest)

    unfoldable pub absent_schemas : List (String × String) → List String
    unfolding check_artifact
    absent_schemas [] = []
    absent_schemas ((artifact, name) ∷ rest) =
        with_error (result_at artifact name) name (absent_schemas rest)

abbrev pub is_failed : Artifact → Bool
is_failed r = elim r.state [ failed ↦ true | _ ↦ false ]

abbrev pub is_passed : Artifact → Bool
is_passed r = elim r.state [ passed ↦ true | _ ↦ false ]

abbrev pub is_not_present : Artifact → Bool
is_not_present r = elim r.state [ not_present ↦ true | _ ↦ false ]

pub record Report : Type 0 where
  pub state : State
  pub passed_count : ℕ
  pub failed_count : ℕ
  pub not_present_count : ℕ
  pub terminal_collection : Bool
  pub errors : List String
  pub artifacts : List Artifact

unfoldable pub report_from : (terminal_collection : Bool) → List Artifact → List String → Report
report_from terminal_collection rs errors =
    let n = count is_failed rs + length errors in
    record {
      state = if nat_eq n 0 then passed else failed;
      passed_count = count is_passed rs;
      failed_count = n;
      not_present_count = count is_not_present rs;
      terminal_collection = terminal_collection;
      errors = errors;
      artifacts = rs;
    }

unfoldable pub validate_collection :
    (matches : String → String → Bool) (str_of : Value → String) (document : String → File)
    → (schema_of : String → SchemaFile) → Report
unfolding results absent_schemas report_from
validate_collection matches str_of document schema_of =
    report_from (terminal (document "metadata.json"))
      (results matches str_of document schema_of schema_files)
      (absent_schemas matches str_of document schema_of schema_files)
