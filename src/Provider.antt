-- ===== src/Provider.antt =====
-- tools/eks-assessment/src/provider_validation.py: the types of the gates, and the gates on the end of
-- the collection, the provider, and quality. A document is the fields of a decoded object.
pub mod Safety
pub mod Applicability
pub mod Evaluate
pub mod Ready
mod Free
mod Passed
pub mod Certified
mod Examples
use k8s_lab_vmware.Prelude.{
  ℕ, String, List, [], ◌∷◌, Bool, true, false, not, ◌&&◌, Option, none, some, if◌then◌else◌, ◌==◌,
  all, get_or, nat_eq,
}
use k8s_lab_vmware.Prelude.Int.{ℤ, pos, negsuc}
use k8s_lab_vmware.Prelude.Result.{Result, ok, ◌>>=◌}
use k8s_lab_vmware.Json.Access.{Raised, or_else, object_or_empty}
use k8s_lab_vmware.Json.{Value, null, boolean, text, object, Fields, Number, get}

-- Python's functions on values and texts: `str`, `int` and `float` of a decoded value (none where
-- they raise, or are not finite), `upper`, `lower`, and `isalnum` of a code point.
pub record Builtins : Type 0 where
  pub str_of : Value → String
  pub int_of : Value → Option ℤ
  pub float_of : Value → Option Number
  pub upper : String → String
  pub lower : String → String
  pub is_alnum : ℕ → Bool

pub data Status : Type 0 where
  passed warned failed not_applicable : Status

pub data GateId : Type 0 where
  terminal_state detection integrity read_only data_protection applicability quality : GateId
  kubernetes_coverage cloud_api cloud_coverage budget : GateId

pub record Gate : Type 0 where
  pub id : GateId
  pub status : Status
  pub mandatory : Bool

abbrev pub gate : GateId → Status → Gate
gate id status = record { id = id; status = status; mandatory = true }

abbrev pub passing : Bool → Status
passing b = if b then passed else failed

-- The value at a path of keys, where it is not None.
unfoldable pub nested : List String → Value → Option Value
unfolding get
nested [] null = none
nested [] v = some v
nested (k ∷ ks) (object fs) = nested ks (get_or (get k fs) null)
nested (k ∷ ks) v = none

abbrev pub is_boolean : Bool → Option Value → Bool
is_boolean b (some (boolean c)) = if b then c else not c
is_boolean b _ = false

-- The documents of a collection; the code reads one that is absent as an empty one.
pub record Documents : Type 0 where
  pub metadata : Fields
  pub comprehensive : Fields
  pub aws : Fields
  pub cloud : Fields
  pub cis : Fields
  pub operational : Fields

abbrev pub reports_of : Documents → List Fields
reports_of d = d.comprehensive ∷ d.aws ∷ d.cloud ∷ d.cis ∷ d.operational ∷ []

abbrev pub non_negative : ℤ → Option ℕ
non_negative (pos n) = some n
non_negative (negsuc n) = none

abbrev pub is_zero : Option ℕ → Bool
is_zero none = false
is_zero (some n) = nat_eq n 0

module _ (b : Builtins) where
  abbrev pub str : Value → String
  str (text s) = s
  str v = b.str_of v

  abbrev pub text_at : String → (default : String) → Fields → String
  text_at key default fs = str (or_else (get key fs) (text default))

  unfoldable pub is_terminal : Fields → Bool
  is_terminal metadata =
      b.upper (text_at "status" "UNKNOWN" metadata) == "COMPLETED"
      && is_boolean true (get "completed" metadata)

  abbrev pub platform_of : Fields → String
  platform_of operational = str (
      or_else (get "platform" operational)
        (get_or (nested ("bestPractices" ∷ "platform" ∷ []) (object operational)) (text "UNKNOWN")))

  -- `detected` is the result of `detected_platform` on the evidence of the cluster.
  unfoldable pub agrees : (detected expected : String) (cloud operational : Fields) → Bool
  agrees detected expected cloud operational =
      all (λ source. source == expected)
        (detected ∷ text_at "provider" "UNKNOWN" cloud ∷ platform_of operational ∷ [])

  -- `integer(value)`
  abbrev pub integer_of : Option Value → Option ℕ
  integer_of none = none
  integer_of (some v) = elim (b.int_of v) [ none ↦ none | some n ↦ non_negative n ]

  unfoldable pub has_quality : Fields → Result Raised Bool
  has_quality comprehensive = do
    counts ← object_or_empty (get "quality" comprehensive)
    ok (
        is_zero (integer_of (get "stableIdentityDuplicates" counts))
        && (is_zero (integer_of (get "conflictingSeverities" counts))
            && is_zero (integer_of (get "lowConfidencePasses" counts))))
