-- ===== src/Manifests/Selector.antt =====
-- The check of the selector of a workload against the labels of its template.
use k8s_lab_vmware.Prelude.{
  String, ◌≡◌, refl, subst, sym, ◌∙◌, ap, Bool, true, false, not, Option, none, some, if◌then◌else◌,
  ◌==◌, get_or, Bool-cases, inl, inr, arith,
}
use k8s_lab_vmware.Prelude.Result.{ok, err, ok_inj, err-ne-ok, returned}
use k8s_lab_vmware.Json.{
  Value, null, boolean, integer, decimal, text, array, object, Fields, end, field, get, same_value,
}
use k8s_lab_vmware.Json.Access.{
  or_else, dict_or_empty, only_object, object_or_empty, attribute_error, truthy,
}
use k8s_lab_vmware.Manifests.{any_field, differs, selector_differs}
use k8s_lab_vmware.Manifests.Sound.{at_path, AllFields, Selects}

any_field-AllFields :
    (p : String → Value → Bool) (fs : Fields)
    → any_field (λ j w. not (p j w)) fs ≡ false
    → AllFields (λ j w. p j w ≡ true) fs
unfolding AllFields
any_field-AllFields p end h = tt
any_field-AllFields p (field k v fs) h = (ground arith, any_field-AllFields p fs (ground arith))

falsy_lem :
    (truth : Bool) (v : Value) (fs : Fields)
    → only_object v ≡ err attribute_error
    → only_object (if truth then v else object end) ≡ ok fs
    → end ≡ fs
falsy_lem true v fs e h = absurd (err-ne-ok (sym e ∙ h))
falsy_lem false v fs e h = ok_inj h

-- Where `value or {}` is an object, it is the value as a dictionary, or an empty one.
pub object_lem : (o : Option Value) (fs : Fields) → object_or_empty o ≡ ok fs → dict_or_empty o ≡ fs
unfolding object_or_empty
object_lem none fs h = ok_inj h
object_lem (some (object end)) fs h = ok_inj h
object_lem (some (object (field k v gs))) fs h = ok_inj h
object_lem (some null) fs h = ok_inj h
object_lem (some (boolean b)) fs h = falsy_lem b (boolean b) fs refl h
object_lem (some (integer n)) fs h = falsy_lem (truthy (integer n)) (integer n) fs refl h
object_lem (some (decimal n k)) fs h = falsy_lem (truthy (decimal n k)) (decimal n k) fs refl h
object_lem (some (text s)) fs h = falsy_lem (not (s == "")) (text s) fs refl h
object_lem (some (array vs)) fs h = falsy_lem (truthy (array vs)) (array vs) fs refl h

-- An object that is not empty is the value itself.
end-ne-field : {k : String} {v : Value} {fs : Fields} → end ≡ field k v fs → ⊥
end-ne-field h = cc

true-ne-false : true ≡ false → ⊥
true-ne-false h = cc

object_inj : {fs gs : Fields} → object fs ≡ object gs → fs ≡ gs
object_inj h = cc

or_else_lem :
    (o : Option Value) (k : String) (v : Value) (fs : Fields)
    → or_else o (object end) ≡ object (field k v fs)
    → get_or o null ≡ object (field k v fs)
or_else_lem none k v fs h = absurd (end-ne-field (object_inj h))
or_else_lem (some w) k v fs h = elim (Bool-cases (truthy w)) [
  | inl e ↦ rw e at h
  | inr e ↦ absurd (end-ne-field (object_inj (rw e at h)))
]

labels_lem :
    (o : Option Value) (fs : Fields) → or_else o (object end) ≡ object fs → dict_or_empty o ≡ fs
unfolding object_or_empty
labels_lem o fs h = object_lem o fs (ap only_object h)

differs-lem :
    (m l : Value)
    → differs m l ≡ ok false
    → (k : String) × (v : Value) × (fs : Fields) × (labels : Fields) × (m ≡ object (field k v fs))
      × (l ≡ object labels)
      × AllFields (λ j w. same_value (get_or (get j labels) null) w ≡ true) (field k v fs)
differs-lem (object end) labels h = absurd (true-ne-false (ok_inj h))
differs-lem (object (field k v fs)) (object labels) h = (
  k,
  v,
  fs,
  labels,
  refl,
  refl,
  any_field-AllFields (λ j w. same_value (get_or (get j labels) null) w) (field k v fs) (ok_inj h),
)
differs-lem _ _ h = absurd (err-ne-ok h)

module _ (spec selector template metadata : Fields)
    (e : dict_or_empty (get "selector" spec) ≡ selector)
    (f : dict_or_empty (get "template" spec) ≡ template)
    (g : dict_or_empty (get "metadata" template) ≡ metadata) where
  abbrev labels_at : Fields → Fields
  labels_at template = dict_or_empty (get "labels" (dict_or_empty (get "metadata" template)))

  matched :
      (k : String) (v : Value) (fs labels : Fields)
      → or_else (get "matchLabels" selector) (object end) ≡ object (field k v fs)
      → or_else (get "labels" metadata) (object end) ≡ object labels
      → AllFields (λ j w. same_value (get_or (get j labels) null) w ≡ true) (field k v fs)
      → Selects spec
  unfolding at_path
  matched k v fs labels m l same =
      let there =
        ap labels_at f
        ∙ ap (λ x. dict_or_empty (get "labels" x)) g
        ∙ labels_lem (get "labels" metadata) labels l in
      (
        k,
        v,
        fs,
        ap (λ x. get_or (get "matchLabels" x) null) e
            ∙ or_else_lem (get "matchLabels" selector) k v fs m,
        subst (λ x. AllFields (λ j w. same_value (get_or (get j x) null) w ≡ true) (field k v fs))
            (sym there) same,
      )

  differs-Selects :
      differs
          (or_else (get "matchLabels" selector) (object end))
          (or_else (get "labels" metadata) (object end))
        ≡ ok false
      → Selects spec
  differs-Selects h =
      let (k, v, fs, labels, m, l, same) = differs-lem _ _ h in matched k v fs labels m l same

pub selector_differs-Selects : (spec : Fields) → selector_differs spec ≡ ok false → Selects spec
unfolding selector_differs
selector_differs-Selects spec h =
    let (selector, first, h1) = returned (object_or_empty (get "selector" spec)) _ h in
    let (template, second, h2) = returned (object_or_empty (get "template" spec)) _ h1 in
    let (metadata, third, h3) = returned (object_or_empty (get "metadata" template)) _ h2 in
    differs-Selects spec selector template metadata
      (object_lem (get "selector" spec) selector first)
      (object_lem (get "template" spec) template second)
      (object_lem (get "metadata" template) metadata third) h3
