-- ===== src/Contracts/Schema/Conforms.antt =====
-- `validate_value` decides conformance to a schema.
use k8s_lab_vmware.Prelude.{
  ℕ, suc, ◌≤◌, String, List, [], ◌∷◌, ◌++◌, ◌≡◌, ◌↔◌, ◌⊎◌, inl, inr, refl, Bool, true, false, not,
  ◌||◌, Option, none, some, if◌then◌else◌, is_some, ◌==◌, is_empty, ltb, All, Bool-cases,
}
use k8s_lab_vmware.Json.{
  Value, null, boolean, integer, decimal, text, array, object, Items, nil, cons, Fields, end, field,
  get, items_length,
}
use k8s_lab_vmware.Contracts.Schema.{
  Keywords, Schema, any_of, plain, Schemas, no_schema, schema, ItemSchema, free, each, Properties,
  no_property, property, key, index, Pointer, Error, report, no_alternative, too_few, missing,
  additional, missing_errors, type_errors, keyword_errors, each_item, property_errors, each_field,
  array_errors, object_errors, unless_typed, validate_value, some_matches, validate_item,
  validate_property,
}
use k8s_lab_vmware.Contracts.Schema.Sound.{
  HasType, type_errors_iff, Holds, keyword_errors_iff, reported, appended, length_iff,
}

abbrev pub AllItems : (Value → Type 0) → Items → Type 0
AllItems P nil = Unit
AllItems P (cons v vs) = P v × AllItems P vs

abbrev pub AllFields : (String → Value → Type 0) → Fields → Type 0
AllFields P end = Unit
AllFields P (field k v fs) = P k v × AllFields P fs

abbrev pub ArrayHolds : (Value → Type 0) → Keywords → Value → Type 0
ArrayHolds P k (array vs) = (k.min_items ≤ items_length vs) × AllItems P vs
ArrayHolds P k _ = Unit

-- Each required key has a value.
abbrev pub ObjectHolds : (String → Value → Type 0) → Keywords → Value → Type 0
ObjectHolds P k (object fs) =
    All (λ r. (w : Value) × (get r fs ≡ some w)) k.required × AllFields P fs
ObjectHolds P k _ = Unit

module _ (matches : String → String → Bool) where
  -- A value conforms to one of several schemas, or has the type, meets the keywords, and its items
  -- and fields conform; a field that the schema does not name is allowed unless it is closed.
  unfoldable mutual
    pub Conforms : Schema → Value → Type 0
    Conforms (any_of ss) v = ConformsSome ss v
    Conforms (plain k items props) v =
        HasType v k.types
        × (Holds matches k v
            × (ArrayHolds (ItemConforms items) k v
                × ObjectHolds (FieldConforms props k.closed) k v))

    pub ConformsSome : Schemas → Value → Type 0
    ConformsSome no_schema v = ⊥
    ConformsSome (schema s ss) v = Conforms s v ⊎ ConformsSome ss v

    pub ItemConforms : ItemSchema → Value → Type 0
    ItemConforms free v = Unit
    ItemConforms (each s) v = Conforms s v

    pub FieldConforms : Properties → Bool → String → Value → Type 0
    FieldConforms no_property closed name v = closed ≡ false
    FieldConforms (property n s props) closed name v =
        if n == name then Conforms s v else FieldConforms props closed name v

each_item_iff :
    (check : Value → Pointer → List Error) (P : Value → Type 0)
    → ((v : Value) (p : Pointer) → (check v p ≡ []) ↔ P v)
    → (p : Pointer) (n : ℕ) (vs : Items) → (each_item check p n vs ≡ []) ↔ AllItems P vs
unfolding each_item
each_item_iff check P e p n nil = (λ h. tt, λ h. refl)
each_item_iff check P e p n (cons v vs) =
    appended (check v (index n ∷ p)) (each_item check p (suc n) vs) (e v (index n ∷ p))
      (each_item_iff check P e p (suc n) vs)

each_field_iff :
    (check : String → Value → Option (List Error)) (closed : Bool) (P : String → Value → Type 0)
    (p : Pointer)
    → ((k : String) (v : Value) → (property_errors closed p k (check k v) ≡ []) ↔ P k v)
    → (fs : Fields) → (each_field check closed p fs ≡ []) ↔ AllFields P fs
unfolding each_field
each_field_iff check closed P p e end = (λ h. tt, λ h. refl)
each_field_iff check closed P p e (field k v fs) =
    appended (property_errors closed p k (check k v)) (each_field check closed p fs) (e k v)
      (each_field_iff check closed P p e fs)

present_iff : (o : Option Value) → (not (is_some o) ≡ false) ↔ ((w : Value) × (o ≡ some w))
present_iff none = (λ h. cc, λ h. cc h.1)
present_iff (some w) = (λ h. (w, refl), λ h. refl)

missing_errors_iff :
    (p : Pointer) (fs : Fields) (rs : List String)
    → (missing_errors p fs rs ≡ []) ↔ All (λ r. (w : Value) × (get r fs ≡ some w)) rs
unfolding missing_errors
missing_errors_iff p fs [] = (λ h. tt, λ h. refl)
missing_errors_iff p fs (r ∷ rs) =
    appended (report (not (is_some (get r fs))) p (missing r)) (missing_errors p fs rs)
      (reported _ p (missing r) (present_iff (get r fs))) (missing_errors_iff p fs rs)

array_errors_iff :
    (check : Value → Pointer → List Error) (P : Value → Type 0) (p : Pointer) (k : Keywords)
    (v : Value)
    → ((v : Value) (p : Pointer) → (check v p ≡ []) ↔ P v)
    → (array_errors check p k v ≡ []) ↔ ArrayHolds P k v
unfolding array_errors
array_errors_iff check P p k (array vs) e =
    appended (report (ltb (items_length vs) k.min_items) p too_few) (each_item check p 0 vs)
      (reported _ p too_few (length_iff (items_length vs) k.min_items))
      (each_item_iff check P e p 0 vs)
array_errors_iff check P p k null e = (λ h. tt, λ h. refl)
array_errors_iff check P p k (boolean b) e = (λ h. tt, λ h. refl)
array_errors_iff check P p k (integer n) e = (λ h. tt, λ h. refl)
array_errors_iff check P p k (decimal m n) e = (λ h. tt, λ h. refl)
array_errors_iff check P p k (text s) e = (λ h. tt, λ h. refl)
array_errors_iff check P p k (object fs) e = (λ h. tt, λ h. refl)

object_errors_iff :
    (check : String → Value → Option (List Error)) (P : String → Value → Type 0) (p : Pointer)
    (k : Keywords) (v : Value)
    → ((n : String) (w : Value) → (property_errors k.closed p n (check n w) ≡ []) ↔ P n w)
    → (object_errors check p k v ≡ []) ↔ ObjectHolds P k v
unfolding object_errors
object_errors_iff check P p k (object fs) e =
    appended (missing_errors p fs k.required) (each_field check k.closed p fs)
      (missing_errors_iff p fs k.required) (each_field_iff check k.closed P p e fs)
object_errors_iff check P p k null e = (λ h. tt, λ h. refl)
object_errors_iff check P p k (boolean b) e = (λ h. tt, λ h. refl)
object_errors_iff check P p k (integer n) e = (λ h. tt, λ h. refl)
object_errors_iff check P p k (decimal m n) e = (λ h. tt, λ h. refl)
object_errors_iff check P p k (text s) e = (λ h. tt, λ h. refl)
object_errors_iff check P p k (array vs) e = (λ h. tt, λ h. refl)

unless_typed-append : (xs ys : List Error) → (unless_typed xs ys ≡ []) ↔ (xs ++ ys ≡ [])
unless_typed-append [] ys = (λ h. h, λ h. h)
unless_typed-append (x ∷ xs) ys = (λ h. cc, λ h. cc)

is_empty_iff : (xs : List Error) {P : Type 0} → (xs ≡ []) ↔ P → (is_empty xs ≡ true) ↔ P
is_empty_iff [] e = (λ h. e.0 refl, λ h. refl)
is_empty_iff (x ∷ xs) e = (λ h. cc, λ h. cc (e.1 h))

either_iff :
    (a b : Bool) {P Q : Type 0} → (a ≡ true) ↔ P → (b ≡ true) ↔ Q → ((a || b) ≡ true) ↔ (P ⊎ Q)
either_iff true b e f = (λ h. inl (e.0 refl), λ h. refl)
either_iff false true e f = (λ h. inr (f.0 refl), λ h. refl)
either_iff false false e f = (λ h. cc, λ h. elim h [ inl p ↦ e.1 p | inr q ↦ f.1 q ])

not_iff : (b : Bool) {P : Type 0} → (b ≡ true) ↔ P → (not b ≡ false) ↔ P
not_iff true e = (λ h. e.0 refl, λ h. refl)
not_iff false e = (λ h. cc, λ h. cc (e.1 h))

module _ (matches : String → String → Bool) where
  mutual
    unfolding validate_value Conforms

    validates :
        (s : Schema) (v : Value) (p : Pointer)
        → (validate_value matches s v p ≡ []) ↔ Conforms matches s v
    validates (any_of ss) v p =
        reported (not (some_matches matches ss v p)) p no_alternative
          (not_iff (some_matches matches ss v p) (matches_some ss v p))
    validates (plain k items props) v p =
        let check = λ (name : String) (child : Value).
          validate_property matches props name child (key name ∷ p) in
        let e =
          appended (type_errors p v k.types)
            (keyword_errors matches p k v
              ++ (array_errors (validate_item matches items) p k v ++ object_errors check p k v))
            (type_errors_iff p v k.types)
            (appended (keyword_errors matches p k v)
              (array_errors (validate_item matches items) p k v ++ object_errors check p k v)
              (keyword_errors_iff matches p k v)
              (appended (array_errors (validate_item matches items) p k v)
                (object_errors check p k v)
                (array_errors_iff (validate_item matches items) (ItemConforms matches items) p k v
                  (validates_item items))
                (object_errors_iff check (FieldConforms matches props k.closed) p k v
                  (λ n w. validates_field props k.closed p n w (key n ∷ p))))) in
        let u = unless_typed-append (type_errors p v k.types) (
          keyword_errors matches p k v
          ++ (array_errors (validate_item matches items) p k v ++ object_errors check p k v)) in
        (λ h. e.0 (u.0 h), λ h. u.1 (e.1 h))

    matches_some :
        (ss : Schemas) (v : Value) (p : Pointer)
        → (some_matches matches ss v p ≡ true) ↔ ConformsSome matches ss v
    matches_some no_schema v p = (λ h. cc, λ h. absurd h)
    matches_some (schema s ss) v p =
        either_iff (is_empty (validate_value matches s v p)) (some_matches matches ss v p)
          (is_empty_iff (validate_value matches s v p) (validates s v p)) (matches_some ss v p)

    validates_item :
        (i : ItemSchema) (v : Value) (p : Pointer)
        → (validate_item matches i v p ≡ []) ↔ ItemConforms matches i v
    validates_item free v p = (λ h. tt, λ h. refl)
    validates_item (each s) v p = validates s v p

    validates_field :
        (props : Properties) (closed : Bool) (p : Pointer) (name : String) (v : Value) (q : Pointer)
        → (property_errors closed p name (validate_property matches props name v q) ≡ [])
          ↔ FieldConforms matches props closed name v
    validates_field no_property closed p name v q =
        reported closed p (additional name) (λ h. h, λ h. h)
    validates_field (property n s props) closed p name v q = elim (Bool-cases (n == name)) [
      | inl e ↦ rw e (validates s v q)
      | inr e ↦ rw e (validates_field props closed p name v q)
    ]

  -- For any meaning of the patterns, any schema and any value, at any pointer: `validate_value`
  -- reports no error exactly if the value conforms to the schema.
  pub validate_value-Conforms :
      (s : Schema) (v : Value) (p : Pointer)
      → (validate_value matches s v p ≡ []) ↔ Conforms matches s v
  validate_value-Conforms s v p = validates s v p
