-- ===== src/Prelude/Options.antt =====
-- The later of two optional values.
use mathlib.Core.Path.{◌≡◌, refl}
use mathlib.Core.Option.{Option, none, some}

module _ {ℓ} {A : Type ℓ} where
  -- The second if there is one.
  abbrev pub or_later : Option A → Option A → Option A
  or_later a none = a
  or_later a (some y) = some y

  pub or_later_assoc : (a b c : Option A) → or_later (or_later a b) c ≡ or_later a (or_later b c)
  or_later_assoc a b none = refl
  or_later_assoc a b (some y) = refl

  pub or_later-none : (a : Option A) → or_later none a ≡ a
  or_later-none none = refl
  or_later-none (some x) = refl
