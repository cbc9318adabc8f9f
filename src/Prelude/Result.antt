-- ===== src/Prelude/Result.antt =====
-- Code that returns a value or raises: `E` is the type of what is raised.
use mathlib.Core.Path.{◌≡◌, refl}
use mathlib.Core.Bool.{Bool, true, false}
use k8s_lab_vmware.Prelude.Tests.{if◌then◌else◌}

pub data Result {ℓ} (E A : Type ℓ) : Type ℓ where
  err : E → Result E A
  ok : A → Result E A

module _ {ℓ} {E A B : Type ℓ} where
  infixl 5 ◌>>=◌ ◌>>◌
  -- What was raised skips the rest of the block.
  abbrev pub ◌>>=◌ : Result E A → (A → Result E B) → Result E B
  ◌>>=◌ (err raised) rest = err raised
  ◌>>=◌ (ok value) rest = rest value

  abbrev pub ◌>>◌ : Result E A → Result E B → Result E B
  ◌>>◌ first rest = first >>= (λ unit. rest)

  -- A block that returned has run both its parts.
  pub returned :
      (first : Result E A) (rest : A → Result E B) {result : B}
      → (first >>= rest) ≡ ok result
      → (value : A) × (first ≡ ok value) × (rest value ≡ ok result)
  returned (err raised) rest h = cc
  returned (ok value) rest h = (value, refl, h)

-- `if test: raise e`
abbrev pub refuse {ℓ} : {E : Type ℓ} → Bool → E → Result E (Unit {ℓ})
refuse true e = err e
refuse false e = ok tt

module _ {ℓ} {E A : Type ℓ} where
  pub ok_inj : {a b : A} → ◌≡◌ {A = Result E A} (ok a) (ok b) → a ≡ b
  ok_inj h = cc

  pub err_inj : {a b : E} → ◌≡◌ {A = Result E A} (err a) (err b) → a ≡ b
  err_inj h = cc

  pub err-ne-ok : {e : E} {a : A} → ◌≡◌ {A = Result E A} (err e) (ok a) → ⊥
  err-ne-ok h = cc

-- Inversion of a guard in front of a value.
pub guarded-eq-ok {ℓ} :
    {E A : Type ℓ} (b : Bool) (e : E) (a : A) {x : A}
    → (if b then ok a else err e) ≡ ok x
    → (b ≡ true) × (a ≡ x)
guarded-eq-ok true e a h = (refl, ok_inj h)
guarded-eq-ok false e a h = absurd (err-ne-ok h)

-- A block that returned has passed its guards.
pub passed_guard {ℓ} :
    {E A : Type ℓ} (test : Bool) (e : E) (rest : Result E A) {a : A}
    → (refuse test e >> rest) ≡ ok a
    → (test ≡ false) × (rest ≡ ok a)
passed_guard true e rest h = absurd (err-ne-ok h)
passed_guard false e rest h = (refl, h)
