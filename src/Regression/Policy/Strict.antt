-- ===== src/Regression/Policy/Strict.antt =====
-- The guards of `load_policy`.
use k8s_lab_vmware.Prelude.{
  String, List, [], ◌∷◌, ◌++◌, map, ◌≡◌, true, not, Option, none, some, minus, is_empty, Dict,
  lookup, arith, All, subst,
}
use k8s_lab_vmware.Prelude.Result.{
  Result, ok, ok_inj, err-ne-ok, returned, passed_guard, ◌>>◌, refuse,
}
use k8s_lab_vmware.Regression.Policy.{
  Setting, Thresholds, PolicyError, unknown_fields, missing_fields, boolean_keys, limit_keys,
  check_boolean, check_limit, check_each, check_values, flag_of, thresholds_of, load_policy,
}

check_each-ok :
    (check : String → Option Setting → Result PolicyError (Unit {0})) (raw : Dict Setting)
    (keys : List String)
    → check_each check raw keys ≡ ok tt
    → All (λ k. check k (lookup k raw) ≡ ok tt) keys
unfolding check_each
check_each-ok check raw [] h = tt
check_each-ok check raw (k ∷ keys) h =
    let (u, first, rest) = returned (check k (lookup k raw)) (λ _. check_each check raw keys) h in
    (first, check_each-ok check raw keys rest)

check_boolean-ok : (k : String) (s : Option Setting) → check_boolean k s ≡ ok tt → flag_of s ≡ true
unfolding check_boolean
check_boolean-ok k s h = ground arith

each :
    (raw : Dict Setting)
    → check_each check_boolean raw boolean_keys ≡ ok tt
    → (flag_of (lookup "requireSameCluster" raw) ≡ true)
      × (flag_of (lookup "requireCompletedCollections" raw) ≡ true)
      × (flag_of (lookup "requireArtifactIntegrity" raw) ≡ true)
      × (flag_of (lookup "requireCisEvidence" raw) ≡ true)
      × (flag_of (lookup "requireOperationalEvidence" raw) ≡ true)
each raw h =
    let (a, (b, (c, (d, (e, _))))) = check_each-ok check_boolean raw boolean_keys h in
    (
      check_boolean-ok _ (lookup "requireSameCluster" raw) a,
      check_boolean-ok _ (lookup "requireCompletedCollections" raw) b,
      check_boolean-ok _ (lookup "requireArtifactIntegrity" raw) c,
      check_boolean-ok _ (lookup "requireCisEvidence" raw) d,
      check_boolean-ok _ (lookup "requireOperationalEvidence" raw) e,
    )

-- Every gate on evidence is required.
pub record IsStrict (t : Thresholds) : Type 0 where
  pub same_cluster : t.require_same_cluster ≡ true
  pub completed : t.require_completed ≡ true
  pub integrity : t.require_integrity ≡ true
  pub cis : t.require_cis ≡ true
  pub operational : t.require_operational ≡ true

checked : (raw : Dict Setting) → check_values raw ≡ ok tt → IsStrict (thresholds_of raw)
unfolding check_values thresholds_of
checked raw h =
    let (u, flags, rest) =
      returned (check_each check_boolean raw boolean_keys)
        (λ _. check_each check_limit raw limit_keys) h in
    let (a, b, c, d, e) = each raw flags in
    record { same_cluster = a; completed = b; integrity = c; cis = d; operational = e }

-- A policy that loads has none of its evidence requirements disabled.
pub load_policy-IsStrict :
    (profile : Option (Dict Setting)) (t : Thresholds) → load_policy profile ≡ ok t → IsStrict t
unfolding load_policy
load_policy-IsStrict none t h = absurd (err-ne-ok h)
load_policy-IsStrict (some raw) t h =
    let fields = map (λ (p : String × Setting). p.0) raw in
    let unknown = minus fields ("description" ∷ boolean_keys ++ limit_keys) in
    let missing = minus (boolean_keys ++ limit_keys) fields in
    let last = check_values raw >> ok (thresholds_of raw) in
    let (_, known) =
      passed_guard (not (is_empty unknown)) (unknown_fields unknown)
        (refuse (not (is_empty missing)) (missing_fields missing) >> last) h in
    let (_, present) = passed_guard (not (is_empty missing)) (missing_fields missing) last known in
    let (u, v, e) = returned (check_values raw) (λ _. ok (thresholds_of raw)) present in
    subst IsStrict (ok_inj e) (checked raw v)
