-- ===== src/Provider/Free.antt =====
-- The keys that the data protection of tools/eks-assessment/src/provider_validation.py forbids.
use k8s_lab_vmware.Prelude.{
  String, List, [], ◌∷◌, ◌++◌, ◌≡◌, refl, Bool, true, false, ◌&&◌, if◌then◌else◌, arith, is_empty,
}
use k8s_lab_vmware.Prelude.Result.{ok, ok_inj, returned}
use k8s_lab_vmware.Json.{
  Value, null, boolean, integer, decimal, text, Items, Fields, array, object, nil, cons, end, field,
  get,
}
use k8s_lab_vmware.Json.Access.{is_text, or_else, object_or_empty}
use k8s_lab_vmware.Provider.{Builtins, is_boolean}
use k8s_lab_vmware.Provider.Safety.{
  forbidden_in, forbidden_fields, forbidden_items, is_protected, is_forbidden,
}

-- No key of the value, at any depth, is forbidden.
mutual
  pub IsFree : Builtins → Value → Type 0
  IsFree b (object fs) = AreFreeFields b fs
  IsFree b (array vs) = AreFreeItems b vs
  IsFree b v = Unit

  pub AreFreeFields : Builtins → Fields → Type 0
  AreFreeFields b end = Unit
  AreFreeFields b (field k v fs) = (is_forbidden b k ≡ false) × IsFree b v × AreFreeFields b fs

  pub AreFreeItems : Builtins → Items → Type 0
  AreFreeItems b nil = Unit
  AreFreeItems b (cons v vs) = IsFree b v × AreFreeItems b vs

allowed : (test : Bool) (k : String) → is_empty (if test then k ∷ [] else []) ≡ true → test ≡ false
allowed true k h = cc
allowed false k h = refl

both_empty :
    (xs ys : List String) → is_empty (xs ++ ys) ≡ true → (is_empty xs ≡ true) × (is_empty ys ≡ true)
both_empty [] ys h = (refl, h)
both_empty (x ∷ xs) ys h = cc

mutual
  unfolding forbidden_in IsFree

  forbidden_in-IsFree : (b : Builtins) (v : Value) → is_empty (forbidden_in b v) ≡ true → IsFree b v
  forbidden_in-IsFree b (object fs) h = forbidden_fields-AreFreeFields b fs h
  forbidden_in-IsFree b (array vs) h = forbidden_items-AreFreeItems b vs h
  forbidden_in-IsFree b null h = tt
  forbidden_in-IsFree b (boolean x) h = tt
  forbidden_in-IsFree b (integer n) h = tt
  forbidden_in-IsFree b (decimal m k) h = tt
  forbidden_in-IsFree b (text s) h = tt

  forbidden_fields-AreFreeFields :
      (b : Builtins) (fs : Fields) → is_empty (forbidden_fields b fs) ≡ true → AreFreeFields b fs
  forbidden_fields-AreFreeFields b end h = tt
  forbidden_fields-AreFreeFields b (field k v fs) h =
      let (here, rest) =
        both_empty (if is_forbidden b k then k ∷ [] else [])
          (forbidden_in b v ++ forbidden_fields b fs) h in
      let (inside, others) = both_empty (forbidden_in b v) (forbidden_fields b fs) rest in
      (
        allowed (is_forbidden b k) k here,
        forbidden_in-IsFree b v inside,
        forbidden_fields-AreFreeFields b fs others,
      )

  forbidden_items-AreFreeItems :
      (b : Builtins) (vs : Items) → is_empty (forbidden_items b vs) ≡ true → AreFreeItems b vs
  forbidden_items-AreFreeItems b nil h = tt
  forbidden_items-AreFreeItems b (cons v vs) h =
      let (inside, others) = both_empty (forbidden_in b v) (forbidden_items b vs) h in
      (forbidden_in-IsFree b v inside, forbidden_items-AreFreeItems b vs others)

found_lem :
    (b : Builtins) (cloud embedded : Value) (x y z : Bool)
    → (x && (y && (z && is_empty (forbidden_in b cloud ++ forbidden_in b embedded)))) ≡ true
    → IsFree b cloud × IsFree b embedded
found_lem b cloud embedded x y z h =
    let (first, second) =
      both_empty (forbidden_in b cloud) (forbidden_in b embedded) (ground arith) in
    (forbidden_in-IsFree b cloud first, forbidden_in-IsFree b embedded second)

pub is_protected-IsFree :
    (b : Builtins) (cloud comprehensive : Fields)
    → is_protected b cloud comprehensive ≡ ok true
    → IsFree b (object cloud) × IsFree b (or_else (get "cloudProvider" comprehensive) (object end))
unfolding is_protected
is_protected-IsFree b cloud comprehensive h =
    let (safety, e, h1) = returned (object_or_empty (get "safety" cloud)) _ h in
    found_lem b (object cloud) (or_else (get "cloudProvider" comprehensive) (object end))
      (is_boolean false (get "credentialsPersisted" safety))
      (is_boolean false (get "rawPayloadsPersisted" safety))
      (is_text (get "accountIdentifiers" safety) "omitted") (ok_inj h1)
