-- ===== src/Lifecycle/Examples.antt =====
-- Assessments with a small catalog; a date is a text of one letter.
use k8s_lab_vmware.Prelude.{
  ℕ, String, [], ◌∷◌, ◌≡◌, refl, true, false, Option, none, some, if◌then◌else◌, ◌==◌, lookup,
  arith,
}
use k8s_lab_vmware.Lifecycle.{
  Catalog, Window, digits, minor_at, minor_from, minor, catalog_metadata, find_window, dates_of,
  state_at, at_boundary, from_window, assess, end_of_support, is_supporting,
}
use k8s_lab_vmware.Lifecycle.Conservative.{Evidence, assess-Evidence, assess-expired}

abbrev iso : String → Option ℕ
iso s = if s == "a" then some 100 else if s == "b" then some 200 else none

abbrev v1_30 : Window
v1_30 = record { standard_end = ""; end_of_support = "b"; extended_end = ""; maintenance_end = "" }

abbrev catalog : Catalog
catalog = record {
  schema_version = "1.0";
  as_of = "a";
  stale_after = 0;
  sources = ("eks", "https://aws.example/eks") ∷ [];
  windows = ("eks", ("1.30", v1_30) ∷ []) ∷ [];
  catalog_error = "";
}

minor-eks : minor "v1.30.4-eks-1a2b" ≡ "1.30"
unfolding minor minor_from minor_at digits
minor-eks = refl

minor-none : minor "v11.30" ≡ ""
unfolding minor minor_from minor_at digits
minor-none = refl

supported_120 : is_supporting (assess iso "v1.30.4" "eks" false none 120 catalog).state ≡ true
unfolding assess minor minor_from minor_at digits catalog_metadata find_window dates_of state_at
    at_boundary from_window lookup
supported_120 = refl

assess-Evidence_example : Evidence iso catalog "v1.30.4" "eks" false none 120
assess-Evidence_example = assess-Evidence iso catalog "v1.30.4" "eks" false none 120 supported_120

found : find_window catalog "eks" (minor "v1.30.4") ≡ some v1_30
unfolding minor minor_from minor_at digits find_window lookup
found = refl

bounded : (if false then none else (dates_of iso v1_30).standard) ≡ some 200
unfolding dates_of
bounded = refl

-- On the day 300 the catalog is stale, and the version past its boundary.
assess-expired_example : (assess iso "v1.30.4" "eks" false none 300 catalog).state ≡ end_of_support
assess-expired_example =
    assess-expired iso catalog "v1.30.4" "eks" false none 300 v1_30 200 found bounded (omega arith)
      refl refl
