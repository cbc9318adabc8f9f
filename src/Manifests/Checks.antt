-- ===== src/Manifests/Checks.antt =====
-- The checks of one manifest in tools/eks-assessment/src/manifest_schema_validation.py, in their order.
use Prim.Native.String.{◌++◌ as text_append}
use k8s_lab_vmware.Prelude.{
  String, List, [], ◌∷◌, ◌++◌, Bool, false, not, ◌&&◌, ◌||◌, if◌then◌else◌, ◌==◌, mem, get_or,
  strip,
}
use k8s_lab_vmware.Prelude.Result.{Result, ok, ◌>>=◌}
use k8s_lab_vmware.Json.Access.{Raised, truthy, or_else, is_object, is_text, objects}
use k8s_lab_vmware.Json.{Value, null, text, array, object, cons, Fields, get}
use k8s_lab_vmware.Manifests.{
  Finding, Resources, Rule, api_not_served, container_image, container_name, containers,
  containers_of, cron_spec, deprecated_api, deprecated_apis, expected_resource, has_pods,
  metadata_of, pod_spec, required_fields, selector_differs, selector_kinds, selector_labels,
  service_selector, spec_of, spec_required, specless_kinds,
}

module _ (str_of : Value → String) where
  abbrev pub str : Value → String
  str (text s) = s
  str v = str_of v

  -- `str(fields.get(key) or default)`
  abbrev pub text_at : String → (default : String) → Fields → String
  text_at key default fs = str (or_else (get key fs) (text default))

  abbrev pub kind_of : Fields → String
  kind_of m = text_at "kind" "" m

  abbrev pub name_of : Fields → String
  name_of m = text_at "name" "" (metadata_of m)

  abbrev pub finding : Rule → Fields → Finding
  finding rule m = record {
    rule = rule;
    namespace = or_else (get "namespace" (metadata_of m)) (text "cluster");
    resource =
        text_append (text_at "kind" "Unknown" m)
          (text_append "/" (text_at "name" "unknown" (metadata_of m)));
  }

  unfoldable pub is_incomplete : Fields → Bool
  is_incomplete m = text_at "apiVersion" "" m == "" || (kind_of m == "" || name_of m == "")

  unfoldable pub lacks_spec : Fields → Bool
  lacks_spec m = not (mem (kind_of m) specless_kinds) && not (is_object (get "spec" m))

  unfoldable pub api_findings : (lower : String → String) → Resources → Fields → List Finding
  api_findings lower r m =
      let api_version = text_at "apiVersion" "" m in
      let resource = expected_resource lower (kind_of m) api_version in
      (if mem api_version deprecated_apis then finding (deprecated_api api_version) m ∷ [] else [])
      ++ (if r.is_available && not (mem resource r.available)
          then finding (api_not_served resource) m ∷ []
          else [])

  unfoldable pub selector_findings : Fields → Result Raised (List Finding)
  selector_findings m =
      if mem (kind_of m) selector_kinds
      then (do
        mismatch ← selector_differs (spec_of m)
        ok (if mismatch then finding selector_labels m ∷ [] else []))
      else ok []

  unfoldable pub service_findings : Fields → List Finding
  service_findings m =
      let spec = spec_of m in
      if (kind_of m == "Service")
        && (not (truthy (get_or (get "selector" spec) null))
            && not (is_text (get "type" spec) "ExternalName"))
      then finding service_selector m ∷ []
      else []

  unfoldable pub effective_spec : Fields → Result Raised Value
  effective_spec m =
      if kind_of m == "CronJob" then cron_spec (spec_of m) else ok (object (pod_spec m))

  -- One container of the loop, with the names before it.
  unfoldable pub check_container : Fields → (names : List String) → Fields → List Finding
  unfolding strip
  check_container m names c =
      let name = text_at "name" "" c in
      (if name == "" || mem name names then finding container_name m ∷ [] else [])
      ++ (if strip (text_at "image" "" c) == ""
          then finding (container_image (if name == "" then "unknown" else name)) m ∷ []
          else [])

  unfoldable pub check_containers : Fields → (names : List String) → List Fields → List Finding
  unfolding check_container
  check_containers m names [] = []
  check_containers m names (c ∷ cs) =
      check_container m names c ++ check_containers m (text_at "name" "" c ∷ names) cs

  unfoldable pub containers_findings : Fields → Value → List Finding
  unfolding check_containers objects
  containers_findings m (array (cons v vs)) = check_containers m [] (objects (cons v vs))
  containers_findings m _ = finding containers m ∷ []

  unfoldable pub pod_findings : Fields → Result Raised (List Finding)
  unfolding effective_spec containers_findings
  pod_findings m =
      if has_pods (kind_of m)
      then (do effective ← effective_spec m; ok (containers_findings m (containers_of effective)))
      else ok []

  -- The findings of a manifest whose identity is new, and whether its API was looked up.
  unfoldable pub check_manifest :
      (lower : String → String) → Resources → Fields → Result Raised (List Finding × Bool)
  unfolding is_incomplete lacks_spec api_findings selector_findings service_findings pod_findings
  check_manifest lower r m =
      if is_incomplete m
      then ok (finding required_fields m ∷ [], false)
      else if lacks_spec m
      then ok (api_findings lower r m ++ finding spec_required m ∷ [], r.is_available)
      else (do
        selector ← selector_findings m
        pods ← pod_findings m
        ok (api_findings lower r m ++ (selector ++ (service_findings m ++ pods)), r.is_available))
