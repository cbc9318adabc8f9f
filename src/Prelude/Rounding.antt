-- ===== src/Prelude/Rounding.antt =====
-- Python's `round(a / b)` for natural numbers: the nearest integer, halves to the even one. The
-- quotient is taken exactly: Python's float quotient rounds the same way while `b` is below 2^45.
use Prim.Native.Nat.{ℕ, ◌+◌, ◌*◌, ◌/◌, ◌%◌, ◌≤◌, ◌<◌}
use mathlib.Core.Path.{◌≡◌, ap}
use native.Mathlib.Omega.{arith}
use native.Mathlib.Nat.{div-add-mod, div-add-mod', le-div_iff_mul-le, mul-div_left}
use native.Mathlib.Decide.{dec_lt}
use k8s_lab_vmware.Prelude.Tests.{ltb, nat_eq, if◌then◌else◌}

unfoldable pub round_div : ℕ → ℕ → ℕ
round_div a b =
    if ltb (2 * (a % b)) b
    then a / b
    else if ltb b (2 * (a % b))
    then a / b + 1
    else if nat_eq (a / b % 2) 0
    then a / b
    else a / b + 1

-- The result is within a half of the quotient.
pub round_div_near :
    (a b : ℕ)
    → 0 < b
    → (2 * a ≤ 2 * (round_div a b * b) + b) × (2 * (round_div a b * b) ≤ 2 * a + b)
unfolding round_div
round_div_near a b h = grind (arith, div-add-mod a b)

div_mono : (a c b : ℕ) → 0 < b → a ≤ c → a / b ≤ c / b
div_mono a c b h le = (le-div_iff_mul-le h).1 (omega (arith, div-add-mod' a b))

-- Rounding adds at most one, and depends on the remainder monotonically.
round_div_bounds : (a b : ℕ) → (a / b ≤ round_div a b) × (round_div a b ≤ a / b + 1)
unfolding round_div
round_div_bounds a b = ground arith

round_div_same : (a c b : ℕ) → a / b ≡ c / b → a % b ≤ c % b → round_div a b ≤ round_div c b
unfolding round_div
round_div_same a c b e le = ground arith

pub round_div_mono : (a c b : ℕ) → 0 < b → a ≤ c → round_div a b ≤ round_div c b
round_div_mono a c b h le = elim (dec_lt (a / b) (c / b)) [
  | yes p ↦ omega (arith, round_div_bounds a b, round_div_bounds c b)
  | no p ↦
      let e : a / b ≡ c / b = omega (arith, div_mono a c b h le) in
      round_div_same a c b e
        (omega (arith, div-add-mod' a b, div-add-mod' c b, ap (λ (t : ℕ). t * b) e))
]

-- A whole quotient is not changed.
pub round_div-mul : (n b : ℕ) → 0 < b → round_div (n * b) b ≡ n
unfolding round_div
round_div-mul n b h =
    let e : n * b / b ≡ n = mul-div_left n h in
    let r : n * b % b ≡ 0 = omega (arith, div-add-mod' (n * b) b, ap (λ (t : ℕ). t * b) e) in
    ground (arith, e, r)
