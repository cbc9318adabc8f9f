-- ===== src/Manifests/Clear.antt =====
-- A manifest without a critical finding.
use k8s_lab_vmware.Prelude.{
  String, List, [], ◌∷◌, ◌++◌, ◌≡◌, refl, sym, ap, ◌∙◌, ◌≢◌, Bool, true, false, Option, none, some,
  mem, count, count-append, Bool-cases, inl, inr, arith, eq_iff,
}
use k8s_lab_vmware.Prelude.Result.{Result, ok, ok_inj, returned}
use k8s_lab_vmware.Json.{Value, object, array, Items, cons, Fields, get}
use k8s_lab_vmware.Json.Access.{Raised, is_object, objects}
use k8s_lab_vmware.Manifests.{
  Finding, is_critical, spec_of, selector_differs, containers_of, selector_kinds, has_pods,
  Resources, selector_labels, required_fields, spec_required,
}
use k8s_lab_vmware.Manifests.Checks.{
  text_at, kind_of, name_of, finding, is_incomplete, lacks_spec, selector_findings, effective_spec,
  containers_findings, pod_findings, service_findings, api_findings, check_manifest,
}
use k8s_lab_vmware.Manifests.Sound.{at_path, Selects, containers_path, Named, IsSound}
use k8s_lab_vmware.Manifests.Selector.{selector_differs-Selects}
use k8s_lab_vmware.Manifests.Containers.{effective_spec-path, containers-Named}

true-ne-false : true ≡ false → ⊥
true-ne-false h = cc

no_critical :
    (f : Finding) (fs : List Finding)
    → is_critical f ≡ true
    → ◌≡◌ {A = Result Raised (List Finding)} (ok (f ∷ [])) (ok fs)
    → count is_critical fs ≡ 0
    → ⊥
no_critical f fs e h c = ground (arith, ap (count is_critical) (ok_inj h), e, c)

object_of : (o : Option Value) → is_object o ≡ true → (fs : Fields) × (o ≡ some (object fs))
object_of (some (object fs)) h = (fs, refl)
object_of none h = cc
object_of (some v) h = cc

module _ (str_of : Value → String) where
  selector-clear :
      (m : Fields) (fs : List Finding)
      → selector_findings str_of m ≡ ok fs
      → count is_critical fs ≡ 0
      → mem (kind_of str_of m) selector_kinds ≡ true
      → Selects (spec_of m)
  unfolding selector_findings is_critical
  selector-clear m fs h c k =
      let (mismatch, e, r) = returned (selector_differs (spec_of m)) _ (rw k at h) in
      elim (Bool-cases mismatch) [
        | inl t ↦ absurd (no_critical (finding str_of selector_labels m) fs refl (rw t at r) c)
        | inr f ↦ selector_differs-Selects (spec_of m) (rw f at e)
      ]

  containers-clear :
      (m : Fields) (v : Value)
      → count is_critical (containers_findings str_of m v) ≡ 0
      → (w : Value) × (vs : Items) × (v ≡ array (cons w vs)) × Named str_of (objects (cons w vs))
  unfolding containers_findings is_critical
  containers-clear m (array (cons w vs)) h =
      (w, vs, refl, (containers-Named str_of m [] (objects (cons w vs)) h).0)
  containers-clear m v h = absurd (omega (arith, h))

  pods-clear :
      (m : Fields) (fs : List Finding)
      → pod_findings str_of m ≡ ok fs
      → count is_critical fs ≡ 0
      → has_pods (kind_of str_of m) ≡ true
      → (v : Value) × (vs : Items) × (at_path (containers_path str_of m) (spec_of m)
          ≡ array (cons v vs))
        × Named str_of (objects (cons v vs))
  unfolding pod_findings
  pods-clear m fs h c k =
      let (v, e, r) = returned (effective_spec str_of m) _ (rw k at h) in
      let (w, vs, listed, named) =
        containers-clear m (containers_of v) (ap (count is_critical) (ok_inj r) ∙ c) in
      (w, vs, sym (effective_spec-path str_of m v e) ∙ listed, named)

  module _ (lower : String → String) (r : Resources) where
    complete :
        (m : Fields)
        → is_incomplete str_of m ≡ false
        → (text_at str_of "apiVersion" "" m ≢ "")
          × (kind_of str_of m ≢ "")
          × (name_of str_of m ≢ "")
    unfolding is_incomplete
    complete m h = (
      λ e. true-ne-false (rw e at h),
      (λ e. ground (arith, eq_iff (kind_of str_of m) "", e, h)),
      λ e. ground (arith, eq_iff (name_of str_of m) "", e, h),
    )

    parts :
        (m : Fields) (selector pods : List Finding)
        → count is_critical
            (api_findings str_of lower r m ++ (selector ++ (service_findings str_of m ++ pods)))
          ≡ 0
        → (count is_critical selector ≡ 0) × (count is_critical pods ≡ 0)
    parts m selector pods h =
        let services = service_findings str_of m in
        let first =
          count-append is_critical (api_findings str_of lower r m)
            (selector ++ (services ++ pods)) in
        let second = count-append is_critical selector (services ++ pods) in
        let third = count-append is_critical services pods in
        (omega (arith, first, second, third, h), omega (arith, first, second, third, h))

    -- The findings of a manifest that is checked to the end.
    abbrev all_findings : Fields → (selector pods : List Finding) → List Finding
    all_findings m selector pods =
        api_findings str_of lower r m ++ (selector ++ (service_findings str_of m ++ pods))

    all_findings-IsSound :
        (m : Fields) (selector pods : List Finding)
        → is_incomplete str_of m ≡ false
        → lacks_spec str_of m ≡ false
        → selector_findings str_of m ≡ ok selector
        → pod_findings str_of m ≡ ok pods
        → count is_critical (all_findings m selector pods) ≡ 0
        → IsSound str_of m
    unfolding lacks_spec
    all_findings-IsSound m selector pods full has e f c =
        let (none_s, none_p) = parts m selector pods c in
        record {
          identity = complete m full;
          spec = λ k. object_of (get "spec" m) (ground (arith, has, k));
          selector = selector-clear m selector e none_s;
          pods = pods-clear m pods f none_p;
        }

    no_more :
        (found : List Finding × Bool) (fs : List Finding) (served : Bool)
        → ◌≡◌ {A = Result Raised (List Finding × Bool)} (ok found) (ok (fs, served))
        → count is_critical fs ≡ 0
        → count is_critical found.0 ≡ 0
    no_more found fs served h c =
        ap (λ (x : List Finding × Bool). count is_critical x.0) (ok_inj h) ∙ c

    lacking-critical :
        (m : Fields)
        → count is_critical (api_findings str_of lower r m ++ finding str_of spec_required m ∷ [])
          ≡ 0
        → ⊥
    unfolding is_critical
    lacking-critical m c = omega (
      arith,
      c,
      count-append is_critical (api_findings str_of lower r m)
          (finding str_of spec_required m ∷ []),
    )

    pub check_manifest-IsSound :
        (m : Fields) (fs : List Finding) (served : Bool)
        → check_manifest str_of lower r m ≡ ok (fs, served)
        → count is_critical fs ≡ 0
        → IsSound str_of m
    unfolding check_manifest is_critical
    check_manifest-IsSound m fs served h c = elim (Bool-cases (is_incomplete str_of m)) [
      | inl missing ↦ absurd (
          omega (
            arith,
            no_more (finding str_of required_fields m ∷ [], false) fs served (rw missing at h) c,
          ))
      | inr full ↦ elim (Bool-cases (lacks_spec str_of m)) [
        | inl lacking ↦ absurd (
            lacking-critical m (
              no_more
                (
                  api_findings str_of lower r m ++ finding str_of spec_required m ∷ [],
                  r.is_available,
                )
                fs served (rw (full, lacking) at h) c))
        | inr has ↦
            let (selector, e, h1) = returned (selector_findings str_of m) _ (rw (full, has) at h) in
            let (pods, f, h2) = returned (pod_findings str_of m) _ h1 in
            all_findings-IsSound m selector pods full has e f
              (no_more (all_findings m selector pods, r.is_available) fs served h2 c)
      ]
    ]
