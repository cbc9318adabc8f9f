-- ===== src/Manifests/Containers.antt =====
-- The check of the containers: where they are read, and their names and images.
use k8s_lab_vmware.Prelude.{
  String, List, [], ◌∷◌, map, ◌≡◌, refl, subst, sym, ◌∙◌, ap, true, false, Option, none, some, ◌==◌,
  mem, get_or, strip, count, count-append, All, Bool-cases, inl, inr, arith, eq_iff,
}
use k8s_lab_vmware.Prelude.Result.{Result, ok, ok_inj, err-ne-ok, returned}
use k8s_lab_vmware.Json.{Value, null, object, Fields, end, get}
use k8s_lab_vmware.Json.Access.{Raised, dict_or_empty, only_object, object_or_empty, is_text}
use k8s_lab_vmware.Manifests.{is_critical, spec_of, pod_spec, cron_spec, containers_of}
use k8s_lab_vmware.Manifests.Checks.{
  text_at, kind_of, effective_spec, check_container, check_containers,
}
use k8s_lab_vmware.Manifests.Selector.{object_lem}
use k8s_lab_vmware.Manifests.Sound.{at_path, container_path, containers_path, Named}

containers_lem :
    (o : Option Value) (o' : Value)
    → get_or o (object end) ≡ o'
    → containers_of o' ≡ get_or (get "containers" (dict_or_empty o)) null
unfolding get
containers_lem none o' h = subst (λ x. containers_of x ≡ null) h refl
containers_lem (some (object fs)) o' h =
    subst (λ x. containers_of x ≡ get_or (get "containers" fs) null) h refl
containers_lem (some v) o' h = subst (λ x. containers_of x ≡ null) h refl

only_lem :
    (o : Option Value) (fs : Fields)
    → only_object (get_or o (object end)) ≡ ok fs
    → dict_or_empty o ≡ fs
only_lem none fs h = ok_inj h
only_lem (some (object gs)) fs h = ok_inj h
only_lem (some v) fs h = absurd (err-ne-ok h)

module _ (spec job job_spec template : Fields) (v : Value)
    (e : dict_or_empty (get "jobTemplate" spec) ≡ job)
    (f : dict_or_empty (get "spec" job) ≡ job_spec)
    (g : dict_or_empty (get "template" job_spec) ≡ template)
    (h : ◌≡◌ {A = Result Raised Value}
      (ok (get_or (get "spec" template) (object end)))
      (ok v)) where
  cron-path : containers_of v ≡ at_path (container_path true false) spec
  unfolding at_path
  cron-path = containers_lem (get "spec" template) v (ok_inj h) ∙ rw (e, f, g) refl

cron_spec-path :
    (spec : Fields) (v : Value)
    → cron_spec spec ≡ ok v
    → containers_of v ≡ at_path (container_path true false) spec
unfolding cron_spec
cron_spec-path spec v h =
    let (job, first, h1) = returned (object_or_empty (get "jobTemplate" spec)) _ h in
    let (job_spec, second, h2) = returned (object_or_empty (get "spec" job)) _ h1 in
    let (template, third, h3) =
      returned (only_object (get_or (get "template" job_spec) (object end))) _ h2 in
    cron-path spec job job_spec template v (object_lem (get "jobTemplate" spec) job first)
      (object_lem (get "spec" job) job_spec second)
      (only_lem (get "template" job_spec) template third) h3

module _ (str_of : Value → String) where
  pub effective_spec-path :
      (m : Fields) (v : Value)
      → effective_spec str_of m ≡ ok v
      → containers_of v ≡ at_path (containers_path str_of m) (spec_of m)
  unfolding effective_spec pod_spec at_path
  effective_spec-path m v h = elim (Bool-cases (kind_of str_of m == "CronJob")) [
    | inl cron ↦ rw cron (cron_spec-path (spec_of m) v (rw cron at h))
    | inr other ↦ elim (Bool-cases (is_text (get "kind" m) "Pod")) [
      | inl pod ↦ rw (other, pod) (ap containers_of (sym (ok_inj (rw (other, pod) at h))))
      | inr out ↦ rw (other, out) (ap containers_of (sym (ok_inj (rw (other, out) at h))))
    ]
  ]

  container_lem :
      (m : Fields) (names : List String) (c : Fields)
      → count is_critical (check_container str_of m names c) ≡ 0
      → ((text_at str_of "name" "" c == "") ≡ false)
        × (mem (text_at str_of "name" "" c) names ≡ false)
        × ((strip (text_at str_of "image" "" c) == "") ≡ false)
  unfolding check_container is_critical
  container_lem m names c h = ground arith

  -- A list of texts none of which is the given one.
  fresh_lem :
      (x : String) (names : List String) (cs : List Fields)
      → All (λ c. mem (text_at str_of "name" "" c) (x ∷ names) ≡ false) cs
      → (mem x (map (text_at str_of "name" "") cs) ≡ false)
        × All (λ c. mem (text_at str_of "name" "" c) names ≡ false) cs
  unfolding mem
  fresh_lem x names [] h = (refl, tt)
  fresh_lem x names (c ∷ cs) h =
      let (none_of, others) = fresh_lem x names cs h.1 in
      let name = text_at str_of "name" "" c in
      (ground (arith, eq_iff x name, eq_iff name x, h.0), (ground (arith, h.0), others))

  pub containers-Named :
      (m : Fields) (names : List String) (cs : List Fields)
      → count is_critical (check_containers str_of m names cs) ≡ 0
      → Named str_of cs × All (λ c. mem (text_at str_of "name" "" c) names ≡ false) cs
  unfolding check_containers Named
  containers-Named m names [] h = (tt, tt)
  containers-Named m names (c ∷ cs) h =
      let name = text_at str_of "name" "" c in
      let sum =
        count-append is_critical (check_container str_of m names c)
          (check_containers str_of m (name ∷ names) cs) in
      let (named, new, image) = container_lem m names c (omega (arith, sum, h)) in
      let (rest, apart) = containers-Named m (name ∷ names) cs (omega (arith, sum, h)) in
      let (once, others) = fresh_lem name names cs apart in
      ((named, once, image, rest), (new, others))
