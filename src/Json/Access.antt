-- ===== src/Json/Access.antt =====
-- How the code reads decoded JSON: truth, defaults, and `get` on a value that may be no dictionary.
use k8s_lab_vmware.Prelude.{
  List, [], ◌∷◌, Bool, true, false, not, Option, none, some, if◌then◌else◌, ◌==◌, nat_eq, String,
}
use k8s_lab_vmware.Prelude.Int.{pos, negsuc}
use k8s_lab_vmware.Prelude.Result.{Result, ok, err}
use k8s_lab_vmware.Json.{
  Value, null, boolean, integer, decimal, text, array, object, Items, nil, cons, Fields, end, field,
}

pub data Raised : Type 0 where
  attribute_error type_error : Raised

-- Whether Python takes a value as true.
abbrev pub truthy : Value → Bool
truthy null = false
truthy (boolean b) = b
truthy (integer (pos n)) = not (nat_eq n 0)
truthy (integer (negsuc n)) = true
truthy (decimal (pos n) k) = not (nat_eq n 0)
truthy (decimal (negsuc n) k) = true
truthy (text s) = not (s == "")
truthy (array nil) = false
truthy (array (cons v vs)) = true
truthy (object end) = false
truthy (object (field k v fs)) = true

-- `value or default`, for a value that may be missing
abbrev pub or_else : Option Value → Value → Value
or_else none d = d
or_else (some v) d = if truthy v then v else d

-- `value if isinstance(value, dict) else {}`
abbrev pub dict_or_empty : Option Value → Fields
dict_or_empty (some (object fs)) = fs
dict_or_empty _ = end

abbrev pub only_object : Value → Result Raised Fields
only_object (object fs) = ok fs
only_object _ = err attribute_error

-- `value or {}` on which `get` is called
unfoldable pub object_or_empty : Option Value → Result Raised Fields
object_or_empty o = only_object (or_else o (object end))

abbrev pub is_object : Option Value → Bool
is_object (some (object fs)) = true
is_object _ = false

abbrev pub is_text : Option Value → String → Bool
is_text (some (text s)) t = s == t
is_text _ t = false

abbrev pub with_object : Value → List Fields → List Fields
with_object (object fs) rest = fs ∷ rest
with_object _ rest = rest

unfoldable pub objects : Items → List Fields
objects nil = []
objects (cons v vs) = with_object v (objects vs)

-- `[item for item in value if isinstance(item, dict)]`; iterating over a text or over the keys of an
-- object gives no dictionary.
abbrev pub dicts_in : Value → Result Raised (List Fields)
dicts_in (array vs) = ok (objects vs)
dicts_in (object fs) = ok []
dicts_in (text s) = ok []
dicts_in _ = err type_error

-- The same for `value or []`.
abbrev pub dicts_or_empty : Option Value → Result Raised (List Fields)
dicts_or_empty o = dicts_in (or_else o (array nil))
