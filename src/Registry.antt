-- ===== src/Registry.antt =====
-- tools/eks-assessment/src/collector_registry.py: the entries of data/collectors.json, the items
-- of an execution plan, and the errors that the planning functions raise. The children follow its
-- functions: Load, Plan, Progress and State.
pub mod Load
pub mod Plan
pub mod Progress
pub mod State
mod Examples
mod Runs
use k8s_lab_vmware.Prelude.{ℕ, String, Bool, false, ◌≡◌, List, [], ◌∷◌, map, mem}
use k8s_lab_vmware.Prelude.Int.{ℤ}

-- An entry as the functions read it: a missing `weight` or `timeoutSeconds` is 0, a missing list
-- is empty, a missing `label` or `conditional` is the empty text (both are only tested for truth).
pub record Collector : Type 0 where
  pub id : String
  pub label : String
  pub weight : ℤ
  pub timeout_seconds : ℤ
  pub required : Bool
  pub conditional : String
  pub channels : List String
  pub dependencies : List String

-- What stands in the file: an entry, or a value that is no object with a text under "id".
pub data Entry : Type 0 where
  malformed : Entry
  entry : Collector → Entry

-- An item of the plan. A loaded registry has positive weights and timeouts.
pub record PlanItem : Type 0 where
  pub id : String
  pub label : String
  pub weight : ℕ
  pub timeout_seconds : ℕ
  pub required : Bool
  pub dependencies : List String

-- The `ValueError`s, with what their messages name. `key_error` is Python's `KeyError` of
-- `entries[collector_id]`, and `out_of_fuel` is the model's own.
pub data Error : Type 0 where
  empty_registry invalid_entry out_of_fuel : Error
  duplicate invalid_weight key_error : (id : String) → Error
  unknown_dependencies : (id : String) (unknown : List String) → Error
  unknown_collectors unavailable forbidden : (ids : List String) → Error
  cycle : (trail : List String) (id : String) → Error
  unavailable_dependency excluded_dependency : (dependency id : String) → Error

abbrev pub ids : List Collector → List String
ids cs = map (λ c. c.id) cs

-- No two entries share an id.
abbrev pub Unique : List Collector → Type 0
Unique [] = Unit
Unique (c ∷ cs) = (mem c.id (ids cs) ≡ false) × Unique cs
