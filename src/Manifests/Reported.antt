-- ===== src/Manifests/Reported.antt =====
-- What the report of an evaluation says of the manifests.
use k8s_lab_vmware.Prelude.{
  String, List, [], ◌∷◌, ◌++◌, ◌≡◌, refl, subst, sym, ap, ◌∙◌, ◌≢◌, Bool, false, Option, none, some,
  some_inj, nat_eq, count, count-append, Bool-cases, inl, inr, arith, map,
}
use k8s_lab_vmware.Prelude.Result.{ok, ok_inj, returned}
use k8s_lab_vmware.Json.{Value, Fields}
use k8s_lab_vmware.Manifests.{Finding, is_critical, Resources}
use k8s_lab_vmware.Manifests.Checks.{check_manifest}
use k8s_lab_vmware.Manifests.Evaluate.{
  manifests_of, Identity, same_identity, Tally, failed, Report, report_of, identity_of, is_seen,
  check_new, with_new, add_identity, check_manifests, evaluate_collection,
}
use k8s_lab_vmware.Manifests.Sound.{IsSound}
use k8s_lab_vmware.Manifests.Clear.{check_manifest-IsSound}

module _ (str_of : Value → String) (lower : String → String) (r : Resources) where
  with_new-count :
      (o : Option (List Finding × Bool)) (t : Tally)
      → count is_critical (with_new str_of lower r o t).findings ≡ 0
      → count is_critical t.findings ≡ 0
  with_new-count none t c = c
  with_new-count (some found) t c = omega (arith, c, count-append is_critical found.0 t.findings)

  found-count :
      (fs : List Finding) (served : Bool) (o : Option (List Finding × Bool)) (t : Tally)
      → some (fs, served) ≡ o
      → count is_critical (with_new str_of lower r o t).findings ≡ 0
      → count is_critical fs ≡ 0
  found-count fs served (some found) t e c =
      ap (λ (x : List Finding × Bool). count is_critical x.0) (some_inj e)
      ∙ omega (arith, c, count-append is_critical found.0 t.findings)
  found-count fs served none t e c = cc

  found-IsSound :
      (m : Fields) (identities : List Identity) (o : Option (List Finding × Bool)) (t : Tally)
      → is_seen str_of m identities ≡ false
      → check_new str_of lower r m identities ≡ ok o
      → count is_critical (with_new str_of lower r o t).findings ≡ 0
      → IsSound str_of m
  found-IsSound m identities o t new h c =
      let ((fs, served), e, kept) =
        returned (check_manifest str_of lower r m) (λ found. ok (some found)) (rw new at h) in
      check_manifest-IsSound str_of lower r m fs served e
        (found-count fs served o t (ok_inj kept) c)

  still_new :
      (m x : Fields) (identities : List Identity)
      → same_identity (identity_of str_of m) (identity_of str_of x) ≡ false
      → is_seen str_of m identities ≡ false
      → is_seen str_of m (add_identity str_of lower r x identities) ≡ false
  still_new m x identities other new = elim (Bool-cases (is_seen str_of x identities)) [
    | inl old ↦ rw old new
    | inr fresh ↦ rw (fresh, other) new
  ]

  check_manifests-IsSound :
      (before : List Fields) (m : Fields) (after : List Fields) (identities : List Identity)
      (t : Tally)
      → check_manifests str_of lower r identities (before ++ m ∷ after) ≡ ok t
      → is_seen str_of m identities ≡ false
      → is_seen str_of m (map (identity_of str_of) before) ≡ false
      → count is_critical t.findings ≡ 0
      → IsSound str_of m
  unfolding check_manifests
  check_manifests-IsSound [] m after identities t h new first c =
      let (o, e, h1) = returned (check_new str_of lower r m identities) _ h in
      let (rest, f, h2) =
        returned (check_manifests str_of lower r (add_identity str_of lower r m identities) after) _
          h1 in
      found-IsSound m identities o rest new e
        (ap (λ (x : Tally). count is_critical x.findings) (ok_inj h2) ∙ c)
  check_manifests-IsSound (x ∷ before) m after identities t h new first c =
      let (o, e, h1) = returned (check_new str_of lower r x identities) _ h in
      let next = add_identity str_of lower r x identities in
      let (rest, f, h2) =
        returned (check_manifests str_of lower r next (before ++ m ∷ after)) _ h1 in
      check_manifests-IsSound before m after next rest f
        (still_new m x identities (ground arith) new) (ground arith)
        (with_new-count o rest (ap (λ (x : Tally). count is_critical x.findings) (ok_inj h2) ∙ c))

  report-count : (t : Tally) → (report_of t).state ≢ failed → count is_critical t.findings ≡ 0
  unfolding report_of
  report-count t h = elim (Bool-cases (nat_eq (count is_critical t.findings) 0)) [
    | inl e ↦ ground arith
    | inr e ↦ absurd (h (rw e refl))
  ]

  -- For any manifest of the file that is the first of its identity (namespace, kind and name): if the
  -- evaluation returns a report that is not FAIL, the manifest has its identity and, as its kind
  -- asks, a spec, match labels that the template has, and containers with distinct names and images.
  pub evaluate_collection-IsSound :
      (source : Value) (report : Report) (before : List Fields) (m : Fields) (after : List Fields)
      → evaluate_collection str_of lower r source ≡ ok report
      → manifests_of source ≡ ok (before ++ m ∷ after)
      → is_seen str_of m (map (identity_of str_of) before) ≡ false
      → report.state ≢ failed
      → IsSound str_of m
  unfolding evaluate_collection
  evaluate_collection-IsSound source report before m after h e first passes =
      let (ms, f, h1) = returned (manifests_of source) _ h in
      let (t, g, h2) = returned (check_manifests str_of lower r [] ms) _ h1 in
      check_manifests-IsSound before m after [] t
        (subst (λ x. check_manifests str_of lower r [] x ≡ ok t) (ok_inj (sym f ∙ e)) g) refl first
        (report-count t (λ s. passes (ap (λ (x : Report). x.state) (sym (ok_inj h2)) ∙ s)))
