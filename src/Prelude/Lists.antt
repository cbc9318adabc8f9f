-- ===== src/Prelude/Lists.antt =====
-- Lists measured by native numbers, Boolean quantifiers that run in tests, and their laws.
use Prim.Native.Nat.{ℕ, zero, suc, ◌+◌, ◌≤◌}
use mathlib.Core.Path.{◌≡◌, refl, ap, sym, ◌∙◌}
use mathlib.Core.Logic.{◌⊎◌, inl, inr}
use mathlib.Core.Bool.{Bool, true, false, ◌&&◌, ◌||◌}
use mathlib.Core.List.{List, [], ◌∷◌, ◌++◌, map}
use native.Mathlib.Omega.{arith}
use k8s_lab_vmware.Prelude.Tests.{if◌then◌else◌}

module _ {ℓ} {A : Type ℓ} where
  abbrev pub length : List A → ℕ
  length [] = 0
  length (x ∷ xs) = suc (length xs)

  abbrev pub take : ℕ → List A → List A
  take zero xs = []
  take (suc n) [] = []
  take (suc n) (x ∷ xs) = x ∷ take n xs

  abbrev pub any : (A → Bool) → List A → Bool
  any p [] = false
  any p (x ∷ xs) = p x || any p xs

  abbrev pub all : (A → Bool) → List A → Bool
  all p [] = true
  all p (x ∷ xs) = p x && all p xs

  -- A comprehension with a condition: `[x for x in xs if p x]`.
  abbrev pub keep : (A → Bool) → List A → List A
  keep p [] = []
  keep p (x ∷ xs) = if p x then x ∷ keep p xs else keep p xs

  -- `sum(p x for x in xs)` over Booleans.
  abbrev pub count : (A → Bool) → List A → ℕ
  count p [] = 0
  count p (x ∷ xs) = if p x then suc (count p xs) else count p xs

  abbrev pub is_empty : List A → Bool
  is_empty [] = true
  is_empty (x ∷ xs) = false

  abbrev pub sum_by : (A → ℕ) → List A → ℕ
  sum_by f [] = 0
  sum_by f (x ∷ xs) = f x + sum_by f xs

module _ {ℓ} {A : Type ℓ} where
  pub length-append : (xs ys : List A) → length (xs ++ ys) ≡ length xs + length ys
  length-append [] ys = omega arith
  length-append (x ∷ xs) ys = omega (arith, length-append xs ys)

  pub length-map {κ} : {B : Type κ} (f : A → B) (xs : List A) → length (map f xs) ≡ length xs
  length-map f [] = refl
  length-map f (x ∷ xs) = omega (arith, length-map f xs)

  pub length-take-le : (n : ℕ) (xs : List A) → length (take n xs) ≤ n
  length-take-le zero xs = omega arith
  length-take-le (suc n) [] = omega arith
  length-take-le (suc n) (x ∷ xs) = omega (arith, length-take-le n xs)

  pub length-keep-le : (p : A → Bool) (xs : List A) → length (keep p xs) ≤ length xs
  length-keep-le p [] = omega arith
  length-keep-le p (x ∷ xs) = ground (arith, length-keep-le p xs)

  pub count-le : (p : A → Bool) (xs : List A) → count p xs ≤ length xs
  count-le p [] = omega arith
  count-le p (x ∷ xs) = ground (arith, count-le p xs)

  pub count-append : (p : A → Bool) (xs ys : List A) → count p (xs ++ ys) ≡ count p xs + count p ys
  count-append p [] ys = omega arith
  count-append p (x ∷ xs) ys = ground (arith, count-append p xs ys)

  pub all-append : (p : A → Bool) (xs ys : List A) → all p (xs ++ ys) ≡ (all p xs && all p ys)
  all-append p [] ys = refl
  all-append p (x ∷ xs) ys = ground (arith, all-append p xs ys)

  -- What was tested on the way in holds of every element kept.
  pub all-keep : (p : A → Bool) (xs : List A) → all p (keep p xs) ≡ true
  all-keep p [] = refl
  all-keep p (x ∷ xs) = ground (arith, all-keep p xs)

-- Every element of a list has a property.
abbrev pub All {ℓ κ} : {A : Type ℓ} → (A → Type κ) → List A → Type κ
All P [] = Unit
All P (x ∷ xs) = P x × All P xs

module _ {A : Type 0} where
  -- An element of a list, at a place.
  abbrev pub Has : A → List A → Type 0
  Has a [] = ⊥
  Has a (x ∷ xs) = (a ≡ x) ⊎ Has a xs

  pub Has-append_left : (a : A) (xs ys : List A) → Has a xs → Has a (xs ++ ys)
  Has-append_left a [] ys h = absurd h
  Has-append_left a (x ∷ xs) ys (inl e) = inl e
  Has-append_left a (x ∷ xs) ys (inr h) = inr (Has-append_left a xs ys h)

  pub Has-append_right : (a : A) (xs ys : List A) → Has a ys → Has a (xs ++ ys)
  Has-append_right a [] ys h = h
  Has-append_right a (x ∷ xs) ys h = inr (Has-append_right a xs ys h)

  pub count-Has : (p : A → Bool) (a : A) (xs : List A) → Has a xs → p a ≡ true → 1 ≤ count p xs
  count-Has p a [] h e = absurd h
  count-Has p a (x ∷ xs) (inl q) e = rw (ap p (sym q) ∙ e) (omega arith)
  count-Has p a (x ∷ xs) (inr h) e = ground (arith, count-Has p a xs h e)

  pub length-Has : (a : A) (xs : List A) → Has a xs → 1 ≤ length xs
  length-Has a [] h = absurd h
  length-Has a (x ∷ xs) h = omega arith

  pub All-Has : (P : A → Type 0) (xs : List A) → ((a : A) → Has a xs → P a) → All P xs
  All-Has P [] h = tt
  All-Has P (x ∷ xs) h = (h x (inl refl), All-Has P xs (λ a p. h a (inr p)))
