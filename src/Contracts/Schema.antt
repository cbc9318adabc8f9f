-- ===== src/Contracts/Schema.antt =====
-- The JSON Schema subset of `validate_value` of tools/eks-assessment/src/assessment_contracts.py.
-- `matches pattern text`, a parameter, is `re.search(pattern, text) is not None`.
pub mod Sound
pub mod Conforms
use k8s_lab_vmware.Prelude.{
  ℕ, suc, String, List, [], ◌∷◌, ◌++◌, Bool, true, false, not, ◌&&◌, ◌||◌, Option, none, some,
  if◌then◌else◌, is_some, ◌==◌, any, is_empty, ltb, text_length,
}
use k8s_lab_vmware.Json.{
  Value, null, boolean, integer, decimal, text, array, object, Items, nil, cons, Fields, end, field,
  Number, number_of, below, get, items_length, same_value,
}

-- The keywords without a schema inside. `types` is `type`: absent, a text, or a list. An absent
-- minimum length is 0, an absent or empty pattern empty; `closed` is `additionalProperties is False`.
pub data Types : Type 0 where
  any_type : Types
  one_type : String → Types
  types_of : List String → Types

pub record Keywords : Type 0 where
  pub types : Types
  pub constant : Option Value
  pub enumeration : Option (List Value)
  pub min_length : ℕ
  pub pattern_text : String
  pub minimum : Option Number
  pub maximum : Option Number
  pub min_items : ℕ
  pub required : List String
  pub closed : Bool

-- An `items` or a property that is no object is as an absent one.
mutual
  pub data Schema : Type 0 where
    any_of : Schemas → Schema
    plain : Keywords → ItemSchema → Properties → Schema

  pub data Schemas : Type 0 where
    no_schema : Schemas
    schema : Schema → Schemas → Schemas

  pub data ItemSchema : Type 0 where
    free : ItemSchema
    each : Schema → ItemSchema

  pub data Properties : Type 0 where
    no_property : Properties
    property : String → Schema → Properties → Properties

pub data Step : Type 0 where
  key : String → Step
  index : ℕ → Step

-- The pointer to a value, its last step first; `$` is the empty list.
abbrev pub Pointer : Type 0
Pointer = List Step

pub data Problem : Type 0 where
  no_alternative : Problem
  wrong_types : List String → Problem
  wrong_type : String → Problem
  wrong_constant not_allowed too_short no_match below_minimum above_maximum too_few : Problem
  missing additional : String → Problem

pub record Error : Type 0 where
  pub pointer : Pointer
  pub problem : Problem

abbrev pub error : Pointer → Problem → Error
error pointer problem = record { pointer = pointer; problem = problem }

abbrev pub is_object : Value → Bool
is_object (object fs) = true
is_object _ = false

abbrev pub is_array : Value → Bool
is_array (array xs) = true
is_array _ = false

abbrev pub is_text : Value → Bool
is_text (text s) = true
is_text _ = false

abbrev pub is_boolean : Value → Bool
is_boolean (boolean b) = true
is_boolean _ = false

abbrev pub is_integer : Value → Bool
is_integer (integer n) = true
is_integer _ = false

abbrev pub is_number : Value → Bool
is_number (integer n) = true
is_number (decimal m k) = true
is_number _ = false

abbrev pub is_null : Value → Bool
is_null null = true
is_null _ = false

-- A type name that the code does not know fits every value.
unfoldable pub json_type : Value → String → Bool
json_type v expected =
    if expected == "object"
    then is_object v
    else if expected == "array"
    then is_array v
    else if expected == "string"
    then is_text v
    else if expected == "boolean"
    then is_boolean v
    else if expected == "integer"
    then is_integer v
    else if expected == "number"
    then is_number v
    else if expected == "null"
    then is_null v
    else true

-- The type check, after which the code returns at once where it fails.
unfoldable pub type_errors : Pointer → Value → Types → List Error
unfolding json_type
type_errors p v any_type = []
type_errors p v (one_type t) = if json_type v t then [] else error p (wrong_type t) ∷ []
type_errors p v (types_of ts) = if any (json_type v) ts then [] else error p (wrong_types ts) ∷ []

-- `if test: errors.append(…)`
abbrev pub report : Bool → Pointer → Problem → List Error
report test p problem = if test then error p problem ∷ [] else []

abbrev pub off_constant : Value → Option Value → Bool
off_constant v none = false
off_constant v (some c) = not (same_value v c)

abbrev pub off_enumeration : Value → Option (List Value) → Bool
off_enumeration v none = false
off_enumeration v (some cs) = not (any (same_value v) cs)

abbrev pub under : Option Number → Option Number → Bool
under (some n) (some limit) = below n limit
under _ _ = false

-- The numeric value, of no Boolean.
abbrev pub plain_number : Value → Option Number
plain_number v = if is_number v then number_of v else none

unfoldable pub text_errors : (String → String → Bool) → Pointer → Keywords → Value → List Error
text_errors matches p k (text s) =
    report (ltb (text_length s) k.min_length) p too_short
    ++ report (not (k.pattern_text == "") && not (matches k.pattern_text s)) p no_match
text_errors matches p k _ = []

unfoldable pub missing_errors : Pointer → Fields → List String → List Error
missing_errors p fs [] = []
missing_errors p fs (r ∷ rs) =
    report (not (is_some (get r fs))) p (missing r) ++ missing_errors p fs rs

unfoldable pub keyword_errors : (String → String → Bool) → Pointer → Keywords → Value → List Error
unfolding text_errors
keyword_errors matches p k v =
    report (off_constant v k.constant) p wrong_constant
    ++ (report (off_enumeration v k.enumeration) p not_allowed
        ++ (text_errors matches p k v
            ++ (report (under (plain_number v) k.minimum) p below_minimum
                ++ report (under k.maximum (plain_number v)) p above_maximum)))

-- The loop over the items, with the validation of one.
unfoldable pub each_item : (Value → Pointer → List Error) → Pointer → ℕ → Items → List Error
each_item check p n nil = []
each_item check p n (cons v vs) = check v (index n ∷ p) ++ each_item check p (suc n) vs

-- The errors of a property, if the schema has it, or else those of an additional one.
abbrev pub property_errors : Bool → Pointer → String → Option (List Error) → List Error
property_errors closed p k (some errors) = errors
property_errors closed p k none = report closed p (additional k)

unfoldable pub each_field :
    (String → Value → Option (List Error)) → Bool → Pointer → Fields → List Error
each_field check closed p end = []
each_field check closed p (field k v fs) =
    property_errors closed p k (check k v) ++ each_field check closed p fs

unfoldable pub array_errors :
    (Value → Pointer → List Error) → Pointer → Keywords → Value → List Error
unfolding each_item
array_errors check p k (array vs) =
    report (ltb (items_length vs) k.min_items) p too_few ++ each_item check p 0 vs
array_errors check p k _ = []

unfoldable pub object_errors :
    (String → Value → Option (List Error)) → Pointer → Keywords → Value → List Error
unfolding missing_errors each_field
object_errors check p k (object fs) =
    missing_errors p fs k.required ++ each_field check k.closed p fs
object_errors check p k _ = []

-- `if errors: return errors` after the type check.
abbrev pub unless_typed : List Error → List Error → List Error
unless_typed [] errors = errors
unless_typed (e ∷ es) errors = e ∷ es

module _ (matches : String → String → Bool) where
  unfoldable mutual
    unfolding type_errors keyword_errors array_errors object_errors

    pub validate_value : Schema → Value → Pointer → List Error
    validate_value (any_of ss) v p = report (not (some_matches ss v p)) p no_alternative
    validate_value (plain k items props) v p = unless_typed (type_errors p v k.types) (
        keyword_errors matches p k v
        ++ (array_errors (validate_item items) p k v
            ++ object_errors (λ name child. validate_property props name child (key name ∷ p)) p k
                v))

    pub some_matches : Schemas → Value → Pointer → Bool
    some_matches no_schema v p = false
    some_matches (schema s ss) v p = is_empty (validate_value s v p) || some_matches ss v p

    pub validate_item : ItemSchema → Value → Pointer → List Error
    validate_item free v p = []
    validate_item (each s) v p = validate_value s v p

    pub validate_property : Properties → String → Value → Pointer → Option (List Error)
    validate_property no_property name v p = none
    validate_property (property n s props) name v p =
        if n == name then some (validate_value s v p) else validate_property props name v p
