-- ===== src/Registry/Plan.antt =====
-- `build_plan` and its inner `add_dependencies` of
-- tools/eks-assessment/src/collector_registry.py.
pub mod Names
pub mod Dependencies
pub mod Total
pub mod Closed
pub mod Contents
use k8s_lab_vmware.Prelude.{
  ℕ, zero, suc, String, List, [], ◌∷◌, ◌++◌, map, Bool, false, not, ◌&&◌, ◌||◌, none, some,
  if◌then◌else◌, mem, minus, meet, is_empty, keep, length, Dict, lookup, insert, ◌==◌,
}
use k8s_lab_vmware.Prelude.Int.{pos_part}
use k8s_lab_vmware.Prelude.Result.{Result, ok, err, ◌>>=◌, ◌>>◌, refuse}
use k8s_lab_vmware.Registry.{
  Collector, PlanItem, Error, out_of_fuel, key_error, unknown_collectors, unavailable, forbidden,
  cycle, unavailable_dependency, excluded_dependency, ids,
}

-- The keyword arguments of `build_plan`; an absent set is empty.
pub record Request : Type 0 where
  pub channel : String
  pub prometheus : Bool
  pub configuration_metadata : Bool
  pub include : List String
  pub exclude : List String

-- `{item["id"]: item for item in registry}`: a later entry replaces an earlier one.
unfoldable pub entries_from : Dict Collector → List Collector → Dict Collector
entries_from d [] = d
entries_from d (c ∷ cs) = entries_from (insert c.id c d) cs

abbrev pub entries_of : List Collector → Dict Collector
entries_of = entries_from []

-- `conditional_features.get(name, False)`
unfoldable pub feature : Request → String → Bool
feature q name =
    if name == "prometheus"
    then q.prometheus
    else if name == "configuration-metadata"
    then q.configuration_metadata
    else false

-- Whether the channel and the features of the request offer a collector.
unfoldable pub offered : Request → Collector → Bool
offered q c = mem q.channel c.channels && (c.conditional == "" || feature q c.conditional)

unfoldable pub channel_ids : Request → List Collector → List String
channel_ids q registry = ids (keep (offered q) registry)

unfoldable pub required_ids : Request → List Collector → List String
required_ids q registry = ids (keep (λ c. c.required && offered q c) registry)

-- The set that dependencies are added to.
unfoldable pub initial : Request → List Collector → List String
initial q registry =
    minus
      (if is_empty q.include
        then channel_ids q registry
        else required_ids q registry ++ meet q.include (channel_ids q registry))
      q.exclude

module _ (channel exclude : List String) where
  -- The loop over the dependencies of `id`, with the recursive call as the argument `recur`.
  unfoldable pub add_each :
      (recur : String → List String → Result Error (List String)) (id : String)
      → List String
      → List String
      → Result Error (List String)
  add_each recur id [] selected = ok selected
  add_each recur id (d ∷ ds) selected = do
    refuse (not (mem d channel)) (unavailable_dependency d id)
    refuse (mem d exclude) (excluded_dependency d id)
    selected' ← if mem d selected then ok selected else recur d (d ∷ selected)
    add_each recur id ds selected'

  -- It returns the set `selected` as the call leaves it. Each call that it makes has selected one
  -- more id of the channel, so that the fuel `suc (length registry)` of `build_plan` is enough.
  unfoldable pub add_dependencies :
      (entries : Dict Collector)
      → ℕ
      → String
      → List String
      → List String
      → Result Error (List String)
  add_dependencies entries zero id trail selected = err out_of_fuel
  add_dependencies entries (suc fuel) id trail selected = do
    refuse (mem id trail) (cycle trail id)
    elim (lookup id entries) [
      | none ↦ err (key_error id)
      | some c ↦
          add_each (λ d s. add_dependencies entries fuel d (trail ++ id ∷ []) s) id c.dependencies
            selected
    ]

  -- `for collector_id in tuple(selected): add_dependencies(collector_id)`
  unfoldable pub add_all :
      (entries : Dict Collector) → ℕ → List String → List String → Result Error (List String)
  add_all entries fuel [] selected = ok selected
  add_all entries fuel (id ∷ rest) selected = do
    selected' ← add_dependencies entries fuel id [] selected
    add_all entries fuel rest selected'

unfoldable pub plan_item : Collector → PlanItem
plan_item c = record {
  id = c.id;
  label = if c.label == "" then c.id else c.label;
  weight = pos_part c.weight;
  timeout_seconds = pos_part c.timeout_seconds;
  required = c.required;
  dependencies = c.dependencies;
}

-- The selection: the guards in the source's order, then the dependencies. `order` is the order in
-- which Python iterates over the set.
unfoldable pub select :
    (order : List String → List String) → List Collector → Request → Result Error (List String)
select order registry q = do
  let unknown = minus (q.include ++ q.exclude) (ids registry)
  refuse (not (is_empty unknown)) (unknown_collectors unknown)
  let channel = channel_ids q registry
  let missing = minus q.include channel
  refuse (not (is_empty missing)) (unavailable missing)
  let excluded = meet (required_ids q registry) q.exclude
  refuse (not (is_empty excluded)) (forbidden excluded)
  let selected = initial q registry
  add_all channel q.exclude (entries_of registry) (suc (length registry)) (order selected) selected

unfoldable pub build_plan :
    (order : List String → List String) → List Collector → Request → Result Error (List PlanItem)
build_plan order registry q = do
  selected ← select order registry q
  ok (map plan_item (keep (λ c. mem c.id selected) registry))
