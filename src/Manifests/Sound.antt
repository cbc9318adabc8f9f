-- ===== src/Manifests/Sound.antt =====
-- What the checks of tools/eks-assessment/src/manifest_schema_validation.py ask of a manifest, by
-- the paths of its values.
use k8s_lab_vmware.Prelude.{
  String, List, [], ◌∷◌, map, ◌≡◌, Bool, true, false, some, ◌==◌, mem, get_or, strip, ◌≢◌,
}
use k8s_lab_vmware.Json.{
  Value, null, array, object, Items, cons, Fields, end, field, get, same_value,
}
use k8s_lab_vmware.Json.Access.{dict_or_empty, is_text, objects}
use k8s_lab_vmware.Manifests.{spec_of, specless_kinds, selector_kinds, has_pods}
use k8s_lab_vmware.Manifests.Checks.{text_at, kind_of, name_of}

-- The value at a path of keys; null where there is none.
unfoldable pub at_path : List String → Fields → Value
unfolding get
at_path [] fs = object fs
at_path (k ∷ []) fs = get_or (get k fs) null
at_path (k ∷ ks) fs = at_path ks (dict_or_empty (get k fs))

unfoldable pub AllFields : (String → Value → Type 0) → Fields → Type 0
AllFields P end = Unit
AllFields P (field k v fs) = P k v × AllFields P fs

-- There are match labels, and the template has each of them with its value.
abbrev pub Selects : Fields → Type 0
Selects spec =
    (k : String) × (v : Value) × (more : Fields) × (at_path ("selector" ∷ "matchLabels" ∷ []) spec
      ≡ object (field k v more))
    × AllFields
        (λ j w. same_value (at_path ("template" ∷ "metadata" ∷ "labels" ∷ j ∷ []) spec) w ≡ true)
        (field k v more)

-- The path of the containers in the spec of a manifest.
abbrev pub container_path : (is_cron is_pod : Bool) → List String
container_path true is_pod = "jobTemplate" ∷ "spec" ∷ "template" ∷ "spec" ∷ "containers" ∷ []
container_path false true = "containers" ∷ []
container_path false false = "template" ∷ "spec" ∷ "containers" ∷ []

module _ (str_of : Value → String) where
  abbrev pub containers_path : Fields → List String
  containers_path m = container_path (kind_of str_of m == "CronJob") (is_text (get "kind" m) "Pod")

  -- Each container has a name that no other has, and an image.
  unfoldable pub Named : List Fields → Type 0
  Named [] = Unit
  Named (c ∷ cs) =
      ((text_at str_of "name" "" c == "") ≡ false)
      × (mem (text_at str_of "name" "" c) (map (text_at str_of "name" "") cs) ≡ false)
      × ((strip (text_at str_of "image" "" c) == "") ≡ false)
      × Named cs

  -- A manifest has its identity and, where its kind asks for them, a spec, a selector that the
  -- template answers, and containers.
  pub record IsSound (m : Fields) : Type 0 where
    pub identity :
        (text_at str_of "apiVersion" "" m ≢ "") × (kind_of str_of m ≢ "") × (name_of str_of m ≢ "")
    pub spec :
        mem (kind_of str_of m) specless_kinds ≡ false
        → (fs : Fields) × (get "spec" m ≡ some (object fs))
    pub selector : mem (kind_of str_of m) selector_kinds ≡ true → Selects (spec_of m)
    pub pods :
        has_pods (kind_of str_of m) ≡ true
        → (v : Value) × (vs : Items) × (at_path (containers_path m) (spec_of m) ≡ array (cons v vs))
          × Named (objects (cons v vs))
