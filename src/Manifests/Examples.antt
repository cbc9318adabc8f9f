-- ===== src/Manifests/Examples.antt =====
-- A file with a Deployment, its duplicate and a Pod without an image.
use k8s_lab_vmware.Prelude.{
  String, List, [], ◌∷◌, ◌≡◌, refl, true, lookup, mem, strip, strip_left, strip_right, is_space,
  count, ◌≢◌,
}
use k8s_lab_vmware.Prelude.Result.{Result, ok, err}
use k8s_lab_vmware.Json.{Value, text, array, object, nil, cons, Fields, end, field, get, same_value}
use k8s_lab_vmware.Json.Access.{Raised, object_or_empty, objects}
use k8s_lab_vmware.Manifests.{
  Finding, deprecated_api, Resources, is_critical, selector_differs, pod_spec, has_suffix, group_of,
  expected_resource,
}
use k8s_lab_vmware.Manifests.Checks.{
  finding, is_incomplete, lacks_spec, api_findings, selector_findings, service_findings,
  effective_spec, check_container, check_containers, containers_findings, pod_findings,
  check_manifest,
}
use k8s_lab_vmware.Manifests.Evaluate.{
  manifests_of, failed, warned, Report, report_of, check_manifests, evaluate_collection,
}
use k8s_lab_vmware.Manifests.Sound.{IsSound}
use k8s_lab_vmware.Manifests.Reported.{evaluate_collection-IsSound}

abbrev str_of : Value → String
str_of v = "?"

abbrev lower : String → String
lower s = s

abbrev served : Resources
served = record { available = "deployments.apps" ∷ []; is_available = true }

abbrev named : String → Fields → Fields
named name rest = field "name" (text name) rest

abbrev labels : Value
labels = object (field "app" (text "web") end)

abbrev container : Value
container = object (named "web" (field "image" (text "web:1") end))

abbrev template : Value
template = object (
    field "metadata" (object (field "labels" labels end))
      (field "spec" (object (field "containers" (array (cons container nil)) end)) end))

abbrev deployment : Fields
deployment = field "apiVersion" (text "apps/v1beta2") (
    field "kind" (text "Deployment") (
      field "metadata" (object (named "web" end)) (
        field "spec"
          (object (
            field "selector" (object (field "matchLabels" labels end))
              (field "template" template end)))
          end)))

abbrev pod : Fields
pod = field "apiVersion" (text "v1") (
    field "kind" (text "Pod") (
      field "metadata" (object (named "web" end)) (
        field "spec" (object (field "containers" (array (cons (object (named "web" end)) nil)) end))
          end)))

abbrev file_of : List Fields → Value
file_of [] = object (field "items" (array nil) end)
file_of (m ∷ []) = object (field "items" (array (cons (object m) nil)) end)
file_of (m ∷ n ∷ rest) = object (field "items" (array (cons (object m) (cons (object n) nil))) end)

abbrev pod_found : Result Raised (List Finding) → List Finding
pod_found (ok fs) = fs
pod_found (err e) = []

abbrev report : Report
report = record {
  state = warned;
  manifests = 1;
  critical = 0;
  warnings = 1;
  served_checks = 1;
  findings = finding str_of (deprecated_api "apps/v1beta2") deployment ∷ [];
}

deployment-warned :
    evaluate_collection str_of lower served (file_of (deployment ∷ deployment ∷ [])) ≡ ok report
unfolding evaluate_collection manifests_of report_of check_manifests check_manifest is_critical get
    objects same_value object_or_empty selector_differs pod_spec has_suffix group_of
    expected_resource lookup is_incomplete lacks_spec api_findings selector_findings
    service_findings effective_spec mem strip strip_left strip_right is_space check_container
    check_containers containers_findings pod_findings
deployment-warned = refl

pod-failed : count is_critical (pod_found (pod_findings str_of pod)) ≡ 1
unfolding pod_findings containers_findings check_containers check_container effective_spec pod_spec
    objects get mem strip strip_left strip_right is_space is_critical
pod-failed = refl

manifests-read :
    manifests_of (file_of (deployment ∷ deployment ∷ [])) ≡ ok (deployment ∷ deployment ∷ [])
unfolding manifests_of objects get
manifests-read = refl

passes : warned ≢ failed
passes h = cc

evaluate_collection-IsSound_example : IsSound str_of deployment
evaluate_collection-IsSound_example =
    evaluate_collection-IsSound str_of lower served (file_of (deployment ∷ deployment ∷ [])) report
      [] deployment (deployment ∷ []) deployment-warned manifests-read refl passes
