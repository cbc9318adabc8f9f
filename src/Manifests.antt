-- ===== src/Manifests.antt =====
-- tools/eks-assessment/src/manifest_schema_validation.py: the rules, and what is read of a manifest,
-- which is the fields of a decoded object. The children have the checks in their order (Checks), the
-- loop over the manifests and the report (Evaluate). `str_of` is Python's `str` of a value that is no
-- text, `lower` is `str.lower`.
pub mod Checks
pub mod Evaluate
pub mod Sound
mod Selector
mod Containers
mod Clear
pub mod Reported
mod Examples
use Prim.Native.Char.{code}
use Prim.Native.String.{◌++◌ as text_append}
use k8s_lab_vmware.Prelude.{
  String, List, [], ◌∷◌, ◌++◌, Bool, true, false, not, ◌||◌, Option, none, some, if◌then◌else◌,
  ◌==◌, mem, any, get_or, nat_eq, Dict, lookup,
}
use k8s_lab_vmware.Prelude.Result.{Result, ok, err, ◌>>=◌}
use k8s_lab_vmware.Json.Access.{
  Raised, attribute_error, or_else, dict_or_empty, only_object, object_or_empty, is_text,
}
use k8s_lab_vmware.Json.{Value, null, text, object, Fields, end, field, get, same_value}

-- The rules, with what their messages name.
pub data Rule : Type 0 where
  required_fields spec_required selector_labels service_selector containers container_name : Rule
  deprecated_api : (api_version : String) → Rule
  api_not_served : (resource : String) → Rule
  container_image : (container : String) → Rule

pub record Finding : Type 0 where
  pub rule : Rule
  pub namespace : Value
  pub resource : String

-- The severity of every other rule is WARN.
unfoldable pub is_critical : Finding → Bool
is_critical f = elim f.rule [
  | deprecated_api v ↦ false
  | api_not_served r ↦ false
  | service_selector ↦ false
  | _ ↦ true
]

abbrev pub deprecated_apis : List String
deprecated_apis =
    "extensions/v1beta1" ∷ "apps/v1beta1" ∷ "apps/v1beta2" ∷ "networking.k8s.io/v1beta1"
    ∷ "policy/v1beta1" ∷ "batch/v1beta1" ∷ "autoscaling/v2beta1" ∷ "autoscaling/v2beta2" ∷ []

abbrev pub resource_names : Dict String
resource_names =
    ("ConfigMap", "configmaps")
    ∷ ("CronJob", "cronjobs.batch")
    ∷ ("DaemonSet", "daemonsets.apps")
    ∷ ("Deployment", "deployments.apps")
    ∷ ("HorizontalPodAutoscaler", "horizontalpodautoscalers.autoscaling")
    ∷ ("Ingress", "ingresses.networking.k8s.io")
    ∷ ("Job", "jobs.batch")
    ∷ ("Namespace", "namespaces")
    ∷ ("NetworkPolicy", "networkpolicies.networking.k8s.io")
    ∷ ("PersistentVolumeClaim", "persistentvolumeclaims")
    ∷ ("Pod", "pods")
    ∷ ("PodDisruptionBudget", "poddisruptionbudgets.policy")
    ∷ ("Role", "roles.rbac.authorization.k8s.io")
    ∷ ("RoleBinding", "rolebindings.rbac.authorization.k8s.io")
    ∷ ("Secret", "secrets")
    ∷ ("Service", "services")
    ∷ ("ServiceAccount", "serviceaccounts")
    ∷ ("StatefulSet", "statefulsets.apps")
    ∷ []

abbrev pub pod_template_kinds : List String
pod_template_kinds = "Deployment" ∷ "StatefulSet" ∷ "DaemonSet" ∷ "ReplicaSet" ∷ "Job" ∷ []

abbrev pub specless_kinds : List String
specless_kinds =
    "Namespace" ∷ "ConfigMap" ∷ "Secret" ∷ "ServiceAccount" ∷ "Role" ∷ "RoleBinding" ∷ []

abbrev pub selector_kinds : List String
selector_kinds = "Deployment" ∷ "StatefulSet" ∷ "DaemonSet" ∷ "ReplicaSet" ∷ []

abbrev pub has_pods : String → Bool
has_pods kind = mem kind (pod_template_kinds ++ "Pod" ∷ "CronJob" ∷ [])

abbrev pub metadata_of : Fields → Fields
metadata_of m = dict_or_empty (get "metadata" m)

abbrev pub spec_of : Fields → Fields
spec_of m = dict_or_empty (get "spec" m)

unfoldable pub pod_spec : Fields → Fields
unfolding get
pod_spec m =
    if is_text (get "kind" m) "Pod"
    then spec_of m
    else dict_or_empty (get "spec" (dict_or_empty (get "template" (spec_of m))))

abbrev pub any_field : (String → Value → Bool) → Fields → Bool
any_field p end = false
any_field p (field k v fs) = p k v || any_field p fs

-- `not selector or any(labels.get(key) != value ...)`; the labels are read for a selector only.
abbrev pub differs : (selector labels : Value) → Result Raised Bool
differs (object end) labels = ok true
differs (object (field k v fs)) (object labels) =
    ok (any_field (λ j w. not (same_value (get_or (get j labels) null) w)) (field k v fs))
differs _ _ = err attribute_error

unfoldable pub selector_differs : Fields → Result Raised Bool
unfolding object_or_empty
selector_differs spec = do
  selector ← object_or_empty (get "selector" spec)
  template ← object_or_empty (get "template" spec)
  metadata ← object_or_empty (get "metadata" template)
  differs (or_else (get "matchLabels" selector) (object end))
      (or_else (get "labels" metadata) (object end))

-- The Pod spec of a CronJob; only an absent template has a default.
unfoldable pub cron_spec : Fields → Result Raised Value
unfolding object_or_empty
cron_spec spec = do
  job ← object_or_empty (get "jobTemplate" spec)
  job_spec ← object_or_empty (get "spec" job)
  template ← only_object (get_or (get "template" job_spec) (object end))
  ok (get_or (get "spec" template) (object end))

abbrev pub containers_of : Value → Value
containers_of (object fs) = get_or (get "containers" fs) null
containers_of _ = null

-- `text.endswith(suffix)`
unfoldable pub has_suffix : (suffix text : String) → Bool
has_suffix suffix String.[] = suffix == ""
has_suffix suffix (String.◌∷◌ c s) = suffix == String.◌∷◌ c s || has_suffix suffix s

-- The text before the first slash, if there is one.
unfoldable pub group_of : String → Option String
group_of String.[] = none
group_of (String.◌∷◌ c s) =
    let rest = group_of s in
    if nat_eq (code c) 47
    then some ""
    else elim rest [ none ↦ none | some t ↦ some (String.◌∷◌ c t) ]

abbrev pub plural : String → String
plural name =
    text_append name
      (if any (λ suffix. has_suffix suffix name) ("s" ∷ "x" ∷ "ch" ∷ "sh" ∷ []) then "es" else "s")

unfoldable pub expected_resource : (lower : String → String) → (kind api_version : String) → String
unfolding has_suffix group_of lookup
expected_resource lower kind api_version = elim (lookup kind resource_names) [
  | some name ↦ name
  | none ↦
      let group = get_or (group_of api_version) "" in
      if group == ""
      then plural (lower kind)
      else text_append (plural (lower kind)) (text_append "." group)
]

pub record Resources : Type 0 where
  pub available : List String
  pub is_available : Bool
