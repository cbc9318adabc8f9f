-- ===== src/Prelude/Text.antt =====
-- Python's sets and dictionaries with string keys: a set is a list with a membership test, a
-- dictionary an association list in insertion order, where writing an old key keeps its place.
use Prim.Native.Nat.{ℕ, zero, suc}
use Prim.Native.Char.{code}
use Prim.Native.String.{String, ◌++◌ as text_append}
use mathlib.Core.Path.{◌≡◌, refl, sym, subst}
use mathlib.Core.Logic.{inl, inr}
use mathlib.Core.Bool.{Bool, true, false, ◌&&◌, ◌||◌, not}
use mathlib.Core.Option.{Option, none, some}
use mathlib.Core.List.{List, [], ◌∷◌, ◌++◌}
use native.Mathlib.Omega.{arith}
use text.Mathlib.Text.{◌==◌}
use text.Mathlib.TextEquality.{eq_iff}
use text.Mathlib.TextPositions.{eq_refl}
use k8s_lab_vmware.Prelude.Tests.{some_inj, if◌then◌else◌, leb, nat_eq, Bool-cases}
use k8s_lab_vmware.Prelude.Lists.{keep, is_empty, any, All}

-- `x in s`
unfoldable pub mem : String → List String → Bool
mem x [] = false
mem x (y ∷ s) = x == y || mem x s

-- `s <= t` on sets
unfoldable pub subset : List String → List String → Bool
subset [] t = true
subset (x ∷ s) t = mem x t && subset s t

pub mem-append : (x : String) (s t : List String) → mem x (s ++ t) ≡ (mem x s || mem x t)
unfolding mem
mem-append x [] t = refl
mem-append x (y ∷ s) t = ground (arith, mem-append x s t)

-- Membership of the values that pass a test on the value alone.
pub mem-keep :
    (x : String) (p : String → Bool) (s : List String) → mem x (keep p s) ≡ (mem x s && p x)
unfolding mem
mem-keep x p [] = refl
mem-keep x p (y ∷ s) = ground (arith, mem-keep x p s, eq_iff x y)

pub mem-subset :
    (x : String) (s t : List String) → subset s t ≡ true → mem x s ≡ true → mem x t ≡ true
unfolding mem subset
mem-subset x (y ∷ s) t h m = ground (arith, mem-subset x s t, eq_iff x y)
mem-subset x [] t h m = ground arith

-- `s - t`
abbrev pub minus : List String → List String → List String
minus s t = keep (λ x. not (mem x t)) s

-- `s & t`
abbrev pub meet : List String → List String → List String
meet s t = keep (λ x. mem x t) s

pub mem-minus : (x : String) (s t : List String) → mem x (minus s t) ≡ (mem x s && not (mem x t))
mem-minus x s t = mem-keep x (λ y. not (mem y t)) s

pub mem-meet : (x : String) (s t : List String) → mem x (meet s t) ≡ (mem x s && mem x t)
mem-meet x s t = mem-keep x (λ y. mem y t) s

pub minus-empty :
    (s t : List String) (x : String) → is_empty (minus s t) ≡ true → mem x s ≡ true → mem x t ≡ true
unfolding mem
minus-empty [] t x e h = cc
minus-empty (y ∷ s) t x e h = ground (arith, minus-empty s t x, eq_iff x y)

pub is_empty-minus :
    (s t : List String)
    → ((x : String) → mem x s ≡ true → mem x t ≡ true)
    → is_empty (minus s t) ≡ true
unfolding mem
is_empty-minus [] t h = refl
is_empty-minus (y ∷ s) t h =
    ground (arith, eq_refl y, h y, is_empty-minus s t (λ x p. h x (ground arith)))

pub meet-empty :
    (s t : List String) (x : String) → is_empty (meet s t) ≡ true → mem x s ≡ true → mem x t ≡ false
unfolding mem
meet-empty [] t x e h = cc
meet-empty (y ∷ s) t x e h = ground (arith, meet-empty s t x, eq_iff x y)

abbrev pub Dict {ℓ} : Type ℓ → Type ℓ
Dict V = List (String × V)

module _ {ℓ} {V : Type ℓ} where
  -- `d.get(k)`
  unfoldable pub lookup : String → Dict V → Option V
  lookup k [] = none
  lookup k ((j, v) ∷ d) = if j == k then some v else lookup k d

  -- `d[k] = v`
  unfoldable pub insert : String → V → Dict V → Dict V
  insert k v [] = (k, v) ∷ []
  insert k v ((j, w) ∷ d) = if j == k then (j, v) ∷ d else (j, w) ∷ insert k v d

  pub lookup-insert :
      (k j : String) (v : V) (d : Dict V)
      → lookup j (insert k v d) ≡ (if k == j then some v else lookup j d)
  unfolding lookup insert
  lookup-insert k j v [] = refl
  lookup-insert k j v ((i, w) ∷ d) =
      ground (arith, eq_iff k j, eq_iff i k, eq_iff i j, lookup-insert k j v d)

pub All-insert :
    {V : Type 0} (P : String × V → Type 0) (k : String) (v : V) (d : Dict V)
    → All P d
    → P (k, v)
    → All P (insert k v d)
unfolding insert
All-insert P k v [] h p = (p, tt)
All-insert P k v ((j, w) ∷ d) h p = elim (Bool-cases (j == k)) [
  | inl e ↦ rw e (subst (λ z. P (z, v)) (sym ((eq_iff j k).0 e)) p, h.1)
  | inr e ↦ rw e (h.0, All-insert P k v d h.1 p)
]

-- What holds of each item of a dictionary holds of what is found in it.
pub All-lookup {ℓ} :
    {V : Type ℓ} (P : String × V → Type 0) (d : Dict V) (name : String) (v : V)
    → All P d
    → lookup name d ≡ some v
    → P (name, v)
unfolding lookup
All-lookup P [] name v h found = absurd (none-ne-some found)
  where
    none-ne-some : none ≡ some v → ⊥
    none-ne-some p = cc
All-lookup P ((k, w) ∷ d) name v h found = elim (Bool-cases (k == name)) [
  | inl here ↦
      subst (λ j. P (j, v)) ((eq_iff k name).0 here)
        (subst (λ x. P (k, x)) (some_inj (rw here at found)) h.0)
  | inr other ↦ All-lookup P d name v h.1 (rw other at found)
]

-- `text[:n]`
unfoldable pub clip : ℕ → String → String
clip zero s = String.[]
clip (suc n) String.[] = String.[]
clip (suc n) (String.◌∷◌ c s) = String.◌∷◌ c (clip n s)

-- `len(text)`
unfoldable pub text_length : String → ℕ
text_length String.[] = 0
text_length (String.◌∷◌ c s) = suc (text_length s)

-- The white space that `str.strip` removes.
unfoldable pub is_space : ℕ → Bool
is_space c =
    (leb 9 c && leb c 13)
    || (leb 28 c && leb c 32)
    || (leb 8192 c && leb c 8202)
    || any (nat_eq c) (133 ∷ 160 ∷ 5760 ∷ 8232 ∷ 8233 ∷ 8239 ∷ 8287 ∷ 12288 ∷ [])

unfoldable pub strip_left : String → String
strip_left String.[] = String.[]
strip_left (String.◌∷◌ c s) = if is_space (code c) then strip_left s else String.◌∷◌ c s

unfoldable pub strip_right : String → String
strip_right String.[] = String.[]
strip_right (String.◌∷◌ c s) =
    let rest = strip_right s in
    if (rest == "") && is_space (code c) then String.[] else String.◌∷◌ c rest

-- `text.strip()`
unfoldable pub strip : String → String
unfolding is_space strip_left strip_right
strip s = strip_right (strip_left s)

-- `a or b` on texts
abbrev pub or_text : String → String → String
or_text a b = if a == "" then b else a

abbrev pub on_first : (String → String) → List String → List String
on_first f [] = []
on_first f (part ∷ parts) = f part ∷ parts

-- `value.split("/")`
unfoldable pub split : String → List String
split String.[] = "" ∷ []
split (String.◌∷◌ c s) =
    if nat_eq (code c) 47 then "" ∷ split s else on_first (λ part. String.◌∷◌ c part) (split s)

-- `"/".join(parts)`
unfoldable pub join : List String → String
join [] = ""
join (part ∷ []) = part
join (part ∷ rest) = text_append part (text_append "/" (join rest))

-- `text.startswith(prefix)`
unfoldable pub has_prefix : (prefix text : String) → Bool
has_prefix String.[] s = true
has_prefix (String.◌∷◌ c p) String.[] = false
has_prefix (String.◌∷◌ c p) (String.◌∷◌ d s) = nat_eq (code c) (code d) && has_prefix p s
