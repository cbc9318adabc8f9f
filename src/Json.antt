-- ===== src/Json.antt =====
-- JSON values as Python decodes them, and Python's comparison of them. An integer and a number with a
-- fraction are different types to the code, and compare by their value; so do `True` and 1.
pub mod Access
use k8s_lab_vmware.Prelude.{
  ℕ, suc, ◌-◌, ◌*◌, ◌^◌, String, Bool, true, false, not, ◌&&◌, Option, none, some, if◌then◌else◌,
  ◌==◌, nat_eq,
}
use k8s_lab_vmware.Prelude.Int.{ℤ, pos, negsuc, ltbℤ}

-- `decimal m k` is m / 10^k, the number that its text gives; the code rounds it to a float.
mutual
  pub data Value : Type 0 where
    null : Value
    boolean : Bool → Value
    integer : ℤ → Value
    decimal : ℤ → ℕ → Value
    text : String → Value
    array : Items → Value
    object : Fields → Value

  pub data Items : Type 0 where
    nil : Items
    cons : Value → Items → Items

  -- The keys of an object are distinct: Python keeps the last of two.
  pub data Fields : Type 0 where
    end : Fields
    field : String → Value → Fields → Fields

pub record Number : Type 0 where
  pub mantissa : ℤ
  pub places : ℕ

abbrev pub number : ℤ → ℕ → Number
number m k = record { mantissa = m; places = k }

-- The value of an instance of `int` or `float`, Booleans included.
abbrev pub number_of : Value → Option Number
number_of (boolean b) = some (number (pos (if b then 1 else 0)) 0)
number_of (integer n) = some (number n 0)
number_of (decimal m k) = some (number m k)
number_of _ = none

unfoldable pub scaled : ℤ → ℕ → ℤ
scaled (pos n) k = pos (n * 10 ^ k)
scaled (negsuc n) k = negsuc (suc n * 10 ^ k - 1)

-- `a < b`
unfoldable pub below : Number → Number → Bool
unfolding scaled
below a b = ltbℤ (scaled a.mantissa b.places) (scaled b.mantissa a.places)

unfoldable pub same_number : Number → Number → Bool
unfolding below
same_number a b = not (below a b) && not (below b a)

unfoldable pub get : String → Fields → Option Value
get key end = none
get key (field k v fs) = if k == key then some v else get key fs

unfoldable pub size : Fields → ℕ
size end = 0
size (field k v fs) = suc (size fs)

unfoldable pub items_length : Items → ℕ
items_length nil = 0
items_length (cons v vs) = suc (items_length vs)

abbrev pub same_numbers : Option Number → Option Number → Bool
same_numbers (some a) (some b) = same_number a b
same_numbers _ _ = false

-- Python's `==`. An array compares item by item, an object key by key.
unfoldable mutual
  unfolding same_number get size

  pub same_value : Value → Value → Bool
  same_value null null = true
  same_value (text s) (text t) = s == t
  same_value (array xs) (array ys) = same_items xs ys
  same_value (object fs) (object gs) = nat_eq (size fs) (size gs) && same_fields fs gs
  same_value a b = same_numbers (number_of a) (number_of b)

  pub same_items : Items → Items → Bool
  same_items nil nil = true
  same_items (cons x xs) (cons y ys) = same_value x y && same_items xs ys
  same_items _ _ = false

  pub same_fields : Fields → Fields → Bool
  same_fields end gs = true
  same_fields (field k v fs) gs = elim (get k gs) [
    | none ↦ false
    | some w ↦ same_value v w && same_fields fs gs
  ]
