-- ===== src/Contracts/Examples.antt =====
-- A small schema, and a collection with its metadata only.
use k8s_lab_vmware.Prelude.{
  String, [], ◌∷◌, ◌≡◌, ◌↔◌, refl, Bool, true, false, none, some, if◌then◌else◌, ◌==◌, text_length,
  All,
}
use k8s_lab_vmware.Prelude.Int.{pos}
use k8s_lab_vmware.Json.{
  Value, boolean, integer, text, object, end, field, number, get, same_value, below,
}
use k8s_lab_vmware.Contracts.Schema.{
  Keywords, one_type, any_type, Schema, plain, free, property, no_property, error, key, wrong_type,
  missing, additional, validate_value,
}
use k8s_lab_vmware.Contracts.Schema.Conforms.{Conforms, validate_value-Conforms}
use k8s_lab_vmware.Contracts.Collection.{
  File, absent, decoded, SchemaFile, loaded, passed, schema_files, validate_collection, results,
  absent_schemas, report_from, check_artifact, failures_of, is_required, terminal, upper_is,
  version_at_least, at_least, numbers_from,
}
use k8s_lab_vmware.Contracts.Collection.Accepted.{Accepted, validate_collection-Accepted}

abbrev no_pattern : String → String → Bool
no_pattern p s = true

abbrev keywords : Keywords
keywords = record {
  types = any_type;
  constant = none;
  enumeration = none;
  min_length = 0;
  pattern_text = "";
  minimum = none;
  maximum = none;
  min_items = 0;
  required = [];
  closed = false;
}

abbrev metadata_schema : Schema
metadata_schema =
    plain (record keywords { types = one_type "object"; required = "status" ∷ []; closed = true })
      free
      (property "status"
        (plain
          (record keywords {
            types = one_type "string";
            enumeration = some (text "COMPLETED" ∷ text "RUNNING" ∷ []);
          })
          free no_property)
        (property "files"
          (plain (record keywords { types = one_type "integer"; minimum = some (number (pos 0) 0) })
            free no_property)
          no_property))

abbrev metadata : Value
metadata = object (field "status" (text "RUNNING") (field "files" (integer (pos 3)) end))

abbrev broken : Value
broken = object (field "files" (text "three") (field "owner" (boolean true) end))

broken-errors :
    validate_value no_pattern metadata_schema broken []
    ≡ error [] (missing "status")
      ∷ error (key "files" ∷ []) (wrong_type "integer")
      ∷ error [] (additional "owner")
      ∷ []
unfolding validate_value get same_value below
broken-errors = refl

validate_value-Conforms_example :
    (validate_value no_pattern metadata_schema broken [] ≡ [])
    ↔ Conforms no_pattern metadata_schema broken
validate_value-Conforms_example = validate_value-Conforms no_pattern metadata_schema broken []

abbrev text_of : Value → String
text_of (text s) = s
text_of v = "1.0"

abbrev documents : String → File
documents name = if name == "metadata.json" then decoded metadata else absent

abbrev schemas : String → SchemaFile
schemas name = loaded metadata_schema

running-passed : (validate_collection no_pattern text_of documents schemas).state ≡ passed
unfolding validate_collection results absent_schemas report_from check_artifact failures_of
    is_required terminal upper_is validate_value get same_value below text_length
running-passed = refl

validate_collection-Accepted_example :
    ((validate_collection no_pattern text_of documents schemas).state ≡ passed)
    ↔ All (Accepted no_pattern text_of documents schemas) schema_files
validate_collection-Accepted_example =
    validate_collection-Accepted no_pattern text_of documents schemas

version_1_10 : version_at_least "1.10.2" (1 ∷ 3 ∷ []) ≡ true
unfolding version_at_least at_least numbers_from
version_1_10 = refl
