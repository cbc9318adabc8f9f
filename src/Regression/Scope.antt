-- ===== src/Regression/Scope.antt =====
-- `scope_evidence` and `completed` of tools/eks-assessment/src/regression_validation.py.
use k8s_lab_vmware.Prelude.{
  String, List, [], ◌∷◌, Bool, true, false, not, ◌&&◌, ◌||◌, Option, none, some, if◌then◌else◌,
  ◌==◌, strip, or_text, all, is_empty,
}
use k8s_lab_vmware.Regression.{Collection}

pub data Signal : Type 0 where
  matched mismatched unavailable : Signal

-- `clusterName` and `context` give a signal only where both sides have a text.
unfoldable pub cluster_signal : String → String → Option Signal
cluster_signal old new =
    if strip old == "" || strip new == ""
    then none
    else some (if strip old == strip new then matched else mismatched)

abbrev pub normalize_namespace : String → String
normalize_namespace s = if s == "*" || s == "all" then "*" else s

abbrev pub namespace_of : Collection → String
namespace_of c = normalize_namespace (strip (or_text c.metadata.namespace_scope c.collection_scope))

unfoldable pub namespace_signal : String → String → Signal
namespace_signal old new =
    if old == "" || new == "" then unavailable else if old == new then matched else mismatched

abbrev pub signals : Option Signal → Option Signal → List Signal
signals (some a) (some b) = a ∷ b ∷ []
signals (some a) none = a ∷ []
signals none (some b) = b ∷ []
signals none none = []

abbrev pub is_match : Signal → Bool
is_match matched = true
is_match _ = false

pub record Scope : Type 0 where
  pub cluster : List Signal
  pub namespace : Signal
  pub available : Bool
  pub same_cluster : Bool
  pub same_namespace : Bool
  pub same_scope : Bool

unfoldable pub scope_evidence : Collection → Collection → Scope
scope_evidence before after =
    let cluster =
      signals (cluster_signal before.metadata.cluster_name after.metadata.cluster_name)
        (cluster_signal before.metadata.context after.metadata.context) in
    let namespace = namespace_signal (namespace_of before) (namespace_of after) in
    let same_cluster = not (is_empty cluster) && all is_match cluster in
    record {
      cluster = cluster;
      namespace = namespace;
      available =
          not (is_empty cluster) && not (namespace_of before == "" || namespace_of after == "");
      same_cluster = same_cluster;
      same_namespace = is_match namespace;
      same_scope = same_cluster && is_match namespace;
    }

-- The status text is upper-cased by the source before it is compared; the field holds that text.
unfoldable pub completed : Collection → Bool
completed c = c.metadata.completed && c.metadata.status == "COMPLETED"
