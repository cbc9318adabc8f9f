-- ===== src/Contracts/Schema/Sound.antt =====
-- What a value without errors is: a description of conformance by quantifiers over the value.
use k8s_lab_vmware.Prelude.{
  ℕ, ◌≤◌, String, List, [], ◌∷◌, ◌++◌, ◌≡◌, ◌≢◌, ◌↔◌, refl, subst, Bool, true, false, not, ◌&&◌,
  Option, none, some, some_inj, ◌==◌, eq_iff, any, ltb, text_length, arith,
}
use k8s_lab_vmware.Json.{
  Value, null, boolean, integer, decimal, text, array, object, Number, below, same_value,
}
use k8s_lab_vmware.Contracts.Schema.{
  Types, any_type, one_type, types_of, Keywords, Pointer, Problem, Error, json_type, type_errors,
  report, off_constant, off_enumeration, under, plain_number, wrong_constant, not_allowed,
  too_short, no_match, below_minimum, above_maximum, text_errors, keyword_errors,
}

pub append-nil_iff {ℓ} : {A : Type ℓ} (xs ys : List A) → (xs ++ ys ≡ []) ↔ ((xs ≡ []) × (ys ≡ []))
append-nil_iff [] ys = (λ h. (refl, h), λ h. h.1)
append-nil_iff (x ∷ xs) ys = (λ h. cc, λ h. cc)

true_ne : true ≡ false → ⊥
true_ne h = cc

module _ {P : Type 0} where
  pub reported :
      (test : Bool) (p : Pointer) (x : Problem) → (test ≡ false) ↔ P → (report test p x ≡ []) ↔ P
  reported true p x e = (λ h. cc, λ h. absurd (true_ne (e.1 h)))
  reported false p x e = (λ h. e.0 refl, λ h. refl)

  pub appended :
      {Q : Type 0} (xs ys : List Error) → (xs ≡ []) ↔ P → (ys ≡ []) ↔ Q → (xs ++ ys ≡ []) ↔ (P × Q)
  appended xs ys e f = (
    λ h. (e.0 ((append-nil_iff xs ys).0 h).0, f.0 ((append-nil_iff xs ys).0 h).1),
    λ h. (append-nil_iff xs ys).1 (e.1 h.0, f.1 h.1),
  )

abbrev pub HasType : Value → Types → Type 0
HasType v any_type = Unit
HasType v (one_type t) = json_type v t ≡ true
HasType v (types_of ts) = any (json_type v) ts ≡ true

pub type_errors_iff :
    (p : Pointer) (v : Value) (ts : Types) → (type_errors p v ts ≡ []) ↔ HasType v ts
unfolding type_errors
type_errors_iff p v any_type = (λ h. tt, λ h. refl)
type_errors_iff p v (one_type t) = ground arith
type_errors_iff p v (types_of ts) = ground arith

-- The keywords on the value itself.
pub record Holds (matches : String → String → Bool) (k : Keywords) (v : Value) : Type 0 where
  pub constant : (c : Value) → k.constant ≡ some c → same_value v c ≡ true
  pub enumeration : (cs : List Value) → k.enumeration ≡ some cs → any (same_value v) cs ≡ true
  pub min_length : (s : String) → v ≡ text s → k.min_length ≤ text_length s
  pub pattern_text :
      (s : String) → v ≡ text s → k.pattern_text ≢ "" → matches k.pattern_text s ≡ true
  pub minimum : (n m : Number) → plain_number v ≡ some n → k.minimum ≡ some m → below n m ≡ false
  pub maximum : (n m : Number) → plain_number v ≡ some n → k.maximum ≡ some m → below m n ≡ false

off_constant_iff :
    (v : Value) (o : Option Value)
    → (off_constant v o ≡ false) ↔ ((c : Value) → o ≡ some c → same_value v c ≡ true)
off_constant_iff v none = (λ h c e. cc, λ h. refl)
off_constant_iff v (some c) = (
  λ h d e. subst (λ x. same_value v x ≡ true) (some_inj e) (ground arith),
  λ f. rw (f c refl) refl,
)

off_enumeration_iff :
    (v : Value) (o : Option (List Value))
    → (off_enumeration v o ≡ false)
      ↔ ((cs : List Value) → o ≡ some cs → any (same_value v) cs ≡ true)
off_enumeration_iff v none = (λ h c e. cc, λ h. refl)
off_enumeration_iff v (some cs) = (
  λ h d e. subst (λ x. any (same_value v) x ≡ true) (some_inj e) (ground arith),
  λ f. rw (f cs refl) refl,
)

under_iff :
    (a b : Option Number)
    → (under a b ≡ false) ↔ ((n m : Number) → a ≡ some n → b ≡ some m → below n m ≡ false)
under_iff (some x) (some y) = (
  λ h n m e f.
      subst (λ z. below z m ≡ false) (some_inj e) (subst (λ z. below x z ≡ false) (some_inj f) h),
  λ f. f x y refl refl,
)
under_iff none b = (λ h n m e f. cc, λ h. refl)
under_iff (some x) none = (λ h n m e f. cc, λ h. refl)

text_inj : {s t : String} → text s ≡ text t → s ≡ t
text_inj h = cc

abbrev TextHolds : (matches : String → String → Bool) → Keywords → Value → Type 0
TextHolds matches k v =
    (s : String)
    → v ≡ text s
    → (k.min_length ≤ text_length s) × (k.pattern_text ≢ "" → matches k.pattern_text s ≡ true)

pub length_iff : (n limit : ℕ) → (ltb n limit ≡ false) ↔ (limit ≤ n)
length_iff n limit = ground arith

pattern_iff :
    (t : String) (found : Bool) → ((not (t == "") && not found) ≡ false) ↔ (t ≢ "" → found ≡ true)
pattern_iff t true = (λ h n. refl, λ f. ground arith)
pattern_iff t false =
    (λ h n. absurd (n (ground (arith, eq_iff t ""))), λ f. ground (arith, eq_iff t "", f))

text_errors_iff :
    (matches : String → String → Bool) (p : Pointer) (k : Keywords) (v : Value)
    → (text_errors matches p k v ≡ []) ↔ TextHolds matches k v
unfolding text_errors
text_errors_iff matches p k (text s) =
    let e =
      appended (report (ltb (text_length s) k.min_length) p too_short)
        (report (not (k.pattern_text == "") && not (matches k.pattern_text s)) p no_match)
        (reported (ltb (text_length s) k.min_length) p too_short
          (length_iff (text_length s) k.min_length))
        (reported (not (k.pattern_text == "") && not (matches k.pattern_text s)) p no_match
          (pattern_iff k.pattern_text (matches k.pattern_text s))) in
    (
      λ h s' same.
          subst
            (λ z.
              (k.min_length ≤ text_length z)
              × (k.pattern_text ≢ "" → matches k.pattern_text z ≡ true))
            (text_inj same) (e.0 h),
      λ f. e.1 (f s refl),
    )
text_errors_iff matches p k null = (λ h s e. cc, λ h. refl)
text_errors_iff matches p k (boolean b) = (λ h s e. cc, λ h. refl)
text_errors_iff matches p k (integer n) = (λ h s e. cc, λ h. refl)
text_errors_iff matches p k (decimal m n) = (λ h s e. cc, λ h. refl)
text_errors_iff matches p k (array xs) = (λ h s e. cc, λ h. refl)
text_errors_iff matches p k (object fs) = (λ h s e. cc, λ h. refl)

pub keyword_errors_iff :
    (matches : String → String → Bool) (p : Pointer) (k : Keywords) (v : Value)
    → (keyword_errors matches p k v ≡ []) ↔ Holds matches k v
unfolding keyword_errors
keyword_errors_iff matches p k v =
    let below_min = under (plain_number v) k.minimum in
    let above_max = under k.maximum (plain_number v) in
    let e =
      appended (report (off_constant v k.constant) p wrong_constant)
        (report (off_enumeration v k.enumeration) p not_allowed
          ++ (text_errors matches p k v
              ++ (report below_min p below_minimum ++ report above_max p above_maximum)))
        (reported _ p wrong_constant (off_constant_iff v k.constant))
        (appended (report (off_enumeration v k.enumeration) p not_allowed)
          (text_errors matches p k v
            ++ (report below_min p below_minimum ++ report above_max p above_maximum))
          (reported _ p not_allowed (off_enumeration_iff v k.enumeration))
          (appended (text_errors matches p k v)
            (report below_min p below_minimum ++ report above_max p above_maximum)
            (text_errors_iff matches p k v)
            (appended (report below_min p below_minimum) (report above_max p above_maximum)
              (reported _ p below_minimum (under_iff (plain_number v) k.minimum))
              (reported _ p above_maximum (under_iff k.maximum (plain_number v)))))) in
    (
      λ h.
          let (c, (en, (t, (lo, hi)))) = e.0 h in
          record {
            constant = c;
            enumeration = en;
            min_length = λ s q. (t s q).0;
            pattern_text = λ s q. (t s q).1;
            minimum = lo;
            maximum = λ n m q r. hi m n r q;
          },
      λ r. e.1 (
        r.constant,
        (
          r.enumeration,
          (
            λ s q. (r.min_length s q, r.pattern_text s q),
            (r.minimum, λ n m q w. r.maximum m n w q),
          ),
        ),
      ),
    )
