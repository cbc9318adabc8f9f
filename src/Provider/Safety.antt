-- ===== src/Provider/Safety.antt =====
-- `readonly_gate` and `protection_gate` of tools/eks-assessment/src/provider_validation.py.
use Prim.Native.Char.{code}
use k8s_lab_vmware.Prelude.{
  String, List, [], ◌∷◌, ◌++◌, Bool, true, false, not, ◌&&◌, ◌||◌, Option, none, some,
  if◌then◌else◌, ◌==◌, mem, any, all, is_empty, has_prefix,
}
use k8s_lab_vmware.Prelude.Int.{pos}
use k8s_lab_vmware.Prelude.Result.{Result, ok, err, ◌>>=◌}
use k8s_lab_vmware.Json.Access.{
  Raised, attribute_error, type_error, or_else, object_or_empty, is_text,
}
use k8s_lab_vmware.Json.{
  Value, integer, text, array, object, Items, nil, cons, Fields, end, field, get, same_value,
}
use k8s_lab_vmware.Provider.{Builtins, Documents, is_boolean, reports_of}

-- `"mutations" in safety and safety.get("mutations") != 0`, for `report.get("safety") or {}`
abbrev pub non_zero : Option Value → Bool
non_zero none = false
non_zero (some v) = not (same_value v (integer (pos 0)))

unfoldable pub has_value : Value → Items → Bool
unfolding same_value
has_value v nil = false
has_value v (cons w ws) = same_value v w || has_value v ws

-- `part in text`
unfoldable pub contains : (part text : String) → Bool
unfolding has_prefix
contains part String.[] = part == ""
contains part (String.◌∷◌ c s) = has_prefix part (String.◌∷◌ c s) || contains part s

abbrev pub raise_if : Bool → Raised → Result Raised Bool
raise_if true e = err e
raise_if false e = ok false

abbrev pub safety_mutates : Value → Result Raised Bool
safety_mutates (object fs) = ok (non_zero (get "mutations" fs))
safety_mutates (array vs) = raise_if (has_value (text "mutations") vs) attribute_error
safety_mutates (text s) = raise_if (contains "mutations" s) attribute_error
safety_mutates _ = err type_error

unfoldable pub any_mutates : List Fields → Result Raised Bool
unfolding get
any_mutates [] = ok false
any_mutates (r ∷ rs) = do
  mutates ← safety_mutates (or_else (get "safety" r) (object end))
  others ← any_mutates rs
  ok (mutates || others)

abbrev pub hashable : Value → Bool
hashable (array vs) = false
hashable (object fs) = false
hashable _ = true

unfoldable pub values : Items → List Value
values nil = []
values (cons v vs) = v ∷ values vs

unfoldable pub keys_of : Fields → List Value
keys_of end = []
keys_of (field k v fs) = text k ∷ keys_of fs

unfoldable pub characters : String → List Value
characters String.[] = []
characters (String.◌∷◌ c s) = text (String.◌∷◌ c "") ∷ characters s

-- `set(value)`
unfoldable pub set_of : Value → Result Raised (List Value)
unfolding values keys_of characters
set_of (array vs) = if all hashable (values vs) then ok (values vs) else err type_error
set_of (object fs) = ok (keys_of fs)
set_of (text s) = ok (characters s)
set_of _ = err type_error

-- `names and names.issubset(allowed)`
unfoldable pub only_from : List String → List Value → Bool
unfolding same_value
only_from allowed names =
    not (is_empty names) && all (λ v. any (λ s. same_value v (text s)) allowed) names

abbrev pub read_only_cloud_operations : List String
read_only_cloud_operations = "get" ∷ "list" ∷ "describe" ∷ "show" ∷ []

abbrev pub forbidden_cloud_keys : List String
forbidden_cloud_keys =
    "accountid" ∷ "subscriptionid" ∷ "tenantid" ∷ "projectid" ∷ "resourceid" ∷ "fqdn" ∷ "endpoint"
    ∷ "endpointurl" ∷ []

module _ (b : Builtins) where
  unfoldable pub is_read_only : Documents → Result Raised Bool
  unfolding any_mutates set_of only_from
  is_read_only d = do
    mutates ← any_mutates (reports_of d)
    safety ← object_or_empty (get "safety" d.comprehensive)
    verbs ← set_of (or_else (get "kubectlVerbs" safety) (array nil))
    cloud_safety ← object_or_empty (get "safety" d.cloud)
    operations ← set_of (or_else (get "operations" cloud_safety) (array nil))
    ok (
        all (λ r. is_boolean true (get "readOnly" r)) (reports_of d)
        && (not mutates
            && (only_from ("get" ∷ "list" ∷ []) verbs
                && only_from read_only_cloud_operations operations)))

  unfoldable pub keep_alnum : String → String
  keep_alnum String.[] = String.[]
  keep_alnum (String.◌∷◌ c s) =
      let rest = keep_alnum s in if b.is_alnum (code c) then String.◌∷◌ c rest else rest

  unfoldable pub normalized_key : String → String
  unfolding keep_alnum
  normalized_key key = keep_alnum (b.lower key)

  abbrev pub is_forbidden : String → Bool
  is_forbidden key = mem (normalized_key key) forbidden_cloud_keys

  -- The forbidden keys at any depth.
  unfoldable mutual
    unfolding normalized_key

    pub forbidden_in : Value → List String
    forbidden_in (object fs) = forbidden_fields fs
    forbidden_in (array vs) = forbidden_items vs
    forbidden_in v = []

    pub forbidden_fields : Fields → List String
    forbidden_fields end = []
    forbidden_fields (field k v fs) =
        (if is_forbidden k then k ∷ [] else []) ++ (forbidden_in v ++ forbidden_fields fs)

    pub forbidden_items : Items → List String
    forbidden_items nil = []
    forbidden_items (cons v vs) = forbidden_in v ++ forbidden_items vs

  unfoldable pub is_protected : (cloud comprehensive : Fields) → Result Raised Bool
  unfolding forbidden_in
  is_protected cloud comprehensive = do
    safety ← object_or_empty (get "safety" cloud)
    let embedded = or_else (get "cloudProvider" comprehensive) (object end)
    let found = forbidden_in (object cloud) ++ forbidden_in embedded
    ok (
        is_boolean false (get "credentialsPersisted" safety)
        && (is_boolean false (get "rawPayloadsPersisted" safety)
            && (is_text (get "accountIdentifiers" safety) "omitted" && is_empty found)))
