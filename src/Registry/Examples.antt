-- ===== src/Registry/Examples.antt =====
-- Tests of the collector registry on a small registry, and the theorems at these inputs.
use k8s_lab_vmware.Prelude.{
  ℕ, String, List, [], ◌∷◌, ◌≡◌, ◌↔◌, refl, Bool, true, false, mem, All, lookup, insert,
}
use k8s_lab_vmware.Prelude.Int.{pos}
use k8s_lab_vmware.Prelude.Result.{ok, err}
use k8s_lab_vmware.Registry.{Collector, PlanItem, Unique, unavailable_dependency}
use k8s_lab_vmware.Registry.Plan.{
  Request, build_plan, select, add_all, add_dependencies, add_each, plan_item, channel_ids,
  required_ids, initial, offered, feature, entries_from, entries_of,
}
use k8s_lab_vmware.Registry.Plan.Names.{In, Sub}
use k8s_lab_vmware.Registry.Plan.Dependencies.{Needs}
use k8s_lab_vmware.Registry.Plan.Closed.{Refused}
use k8s_lab_vmware.Registry.Plan.Contents.{
  plan_ids, build_plan-Needs, build_plan-Refused, build_plan-Respects, build_plan-closed,
}

abbrev pub item : String → ℕ → Bool → List String → List String → Collector
item id weight required channels dependencies = record {
  id = id;
  label = "";
  weight = pos weight;
  timeout_seconds = pos 90;
  required = required;
  conditional = "";
  channels = channels;
  dependencies = dependencies;
}

-- `discovery` needs `services`, which needs `discovery`: a cycle.
abbrev pub small : List Collector
small =
    item "preflight" 5 true ("cli" ∷ "web" ∷ []) []
    ∷ item "discovery" 10 false ("cli" ∷ []) ("preflight" ∷ "services" ∷ [])
    ∷ item "services" 3 false ("cli" ∷ []) ("discovery" ∷ [])
    ∷ item "pvcs" 3 false ("web" ∷ []) ("discovery" ∷ [])
    ∷ []

abbrev request : String → List String → List String → Request
request channel include exclude = record {
  channel = channel;
  prometheus = false;
  configuration_metadata = false;
  include = include;
  exclude = exclude;
}

-- The set's elements as they stand.
abbrev in_order : List String → List String
in_order s = s

abbrev cli_discovery : Request
cli_discovery = request "cli" ("discovery" ∷ []) []

abbrev pub cli_plan : List PlanItem
cli_plan =
    plan_item (item "preflight" 5 true ("cli" ∷ "web" ∷ []) [])
    ∷ plan_item (item "discovery" 10 false ("cli" ∷ []) ("preflight" ∷ "services" ∷ []))
    ∷ plan_item (item "services" 3 false ("cli" ∷ []) ("discovery" ∷ []))
    ∷ []

-- The cycle is planned.
cli_planned : build_plan in_order small cli_discovery ≡ ok cli_plan
unfolding build_plan select add_all add_dependencies add_each channel_ids required_ids initial
    offered feature entries_from mem lookup insert
cli_planned = refl

web_refused :
    build_plan in_order small (request "web" [] [])
    ≡ err (unavailable_dependency "discovery" "pvcs")
unfolding build_plan select add_all add_dependencies add_each channel_ids required_ids initial
    offered feature entries_from mem lookup insert
web_refused = refl

build_plan-Needs_example :
    In "services" (plan_ids cli_plan)
    ↔ Needs
        (channel_ids cli_discovery small)
        []
        (entries_of small)
        (initial cli_discovery small)
        "services"
build_plan-Needs_example =
    build_plan-Needs in_order (λ s x. refl) small cli_discovery cli_plan cli_planned "services"

build_plan-Refused_example :
    Refused small (request "web" [] []) (unavailable_dependency "discovery" "pvcs")
build_plan-Refused_example =
    build_plan-Refused in_order (λ s x. refl) small (request "web" [] [])
      (unavailable_dependency "discovery" "pvcs") web_refused

build_plan-Respects_example :
    ((x : String)
      → In x (plan_ids cli_plan)
      → In x (channel_ids cli_discovery small) × (mem x [] ≡ false))
    × Sub (required_ids cli_discovery small) (plan_ids cli_plan)
    × ((x : String) → In x ("discovery" ∷ []) → mem x [] ≡ false → In x (plan_ids cli_plan))
build_plan-Respects_example =
    build_plan-Respects in_order (λ s x. refl) small cli_discovery cli_plan cli_planned

small-Unique : Unique small
unfolding mem
small-Unique = (refl, (refl, (refl, (refl, tt))))

build_plan-closed_example : All (λ (p : PlanItem). Sub p.dependencies (plan_ids cli_plan)) cli_plan
build_plan-closed_example =
    build_plan-closed in_order (λ s x. refl) small cli_discovery small-Unique cli_plan cli_planned
