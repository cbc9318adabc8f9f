-- ===== src/Registry/State.antt =====
-- `init_state`, `update_state` and `should_run` of
-- tools/eks-assessment/src/collector_registry.py. The file collector-state.json is a value that is
-- passed in and returned (`none`: there is no readable object); `now` is `utc_iso()`.
pub mod Effects
pub mod Invariant
use k8s_lab_vmware.Prelude.{
  ℕ, ◌+◌, String, List, [], ◌∷◌, map, Bool, true, false, ◌||◌, Option, none, some, if◌then◌else◌,
  mem, Dict, lookup, insert, clip, ◌==◌,
}
use k8s_lab_vmware.Prelude.Int.{ℤ}
use k8s_lab_vmware.Prelude.Result.{Result, ok, err}
use k8s_lab_vmware.Registry.{PlanItem}
use k8s_lab_vmware.Registry.Progress.{
  RunState, pending, running, pass, fail, skipped, cancelled, timed_out, is_terminal,
  CollectorState, calculate_progress,
}

pub record State : Type 0 where
  pub collection : String
  pub created_at : String
  pub updated_at : String
  pub resumed_at : Option String
  pub plan : List PlanItem
  pub collectors : Dict CollectorState
  pub progress_percent : ℕ

-- `{"state": "PENDING", "attempts": 0}`
abbrev pub fresh : CollectorState
fresh = record {
  state = pending;
  attempts = 0;
  started_at = none;
  finished_at = none;
  exit_code = none;
  detail = none;
}

-- `current in {"RUNNING", "CANCELLED", "TIMED_OUT"} or (retry_failed and current == "FAIL")`
unfoldable pub runs_again : Bool → RunState → Bool
runs_again retry running = true
runs_again retry cancelled = true
runs_again retry timed_out = true
runs_again retry fail = retry
runs_again retry _ = false

abbrev pub old_or_fresh : Option CollectorState → CollectorState
old_or_fresh none = fresh
old_or_fresh (some e) = e

-- The entry that one item of the plan starts with.
unfoldable pub init_entry : Bool → Dict CollectorState → String → CollectorState
init_entry retry old id =
    let e = old_or_fresh (lookup id old) in
    if id == "preflight" || runs_again retry e.state then record e { state = pending } else e

-- The loop over the plan, which fills a new dictionary.
unfoldable pub init_entries :
    Bool → Dict CollectorState → Dict CollectorState → List PlanItem → Dict CollectorState
init_entries retry old collectors [] = collectors
init_entries retry old collectors (item ∷ plan) =
    init_entries retry old (insert item.id (init_entry retry old item.id) collectors) plan

abbrev pub previous_collectors : Option State → Dict CollectorState
previous_collectors none = []
previous_collectors (some s) = s.collectors

abbrev pub previous_created : String → Option State → String
previous_created now none = now
previous_created now (some s) = if s.created_at == "" then now else s.created_at

unfoldable pub init_state :
    (collection now : String) (saved : Option State) → List PlanItem → (resume retry : Bool) → State
init_state collection now saved plan resume retry =
    let previous = if resume then saved else none in
    let collectors = init_entries retry (previous_collectors previous) [] plan in
    record {
      collection = collection;
      created_at = previous_created now previous;
      updated_at = now;
      resumed_at = if resume then some now else none;
      plan = plan;
      collectors = collectors;
      progress_percent = calculate_progress plan collectors;
    }

-- What the new state does to the times and the attempts.
unfoldable pub mark_times : String → RunState → CollectorState → CollectorState
mark_times now running e = record e {
  started_at = some now;
  attempts = e.attempts + 1;
  finished_at = none;
}
mark_times now s e = if is_terminal s then record e { finished_at = some now } else e

unfoldable pub mark_result : Option ℤ → String → CollectorState → CollectorState
mark_result code detail e = record e {
  exit_code = elim code [ none ↦ e.exit_code | some c ↦ some c ];
  detail = if detail == "" then e.detail else some (clip 500 detail);
}

-- `raise ValueError(f"collector is not in plan: …")`
pub data Error : Type 0 where
  not_in_plan : String → Error

unfoldable pub mark_entry : String → RunState → Option ℤ → String → CollectorState → CollectorState
mark_entry now s code detail e = mark_result code detail (record (mark_times now s e) { state = s })

unfoldable pub update_state :
    (now : String)
    → State
    → (collector : String) → RunState
    → Option ℤ
    → String
    → Result Error State
update_state now value collector s code detail =
    if mem collector (map (λ (i : PlanItem). i.id) value.plan)
    then (let entry =
          mark_entry now s code detail (old_or_fresh (lookup collector value.collectors)) in
        let collectors = insert collector entry value.collectors in
        ok (record value {
          collectors = collectors;
          updated_at = now;
          progress_percent = calculate_progress value.plan collectors;
        }))
    else err (not_in_plan collector)

abbrev pub state_of : Option CollectorState → RunState
state_of none = pending
state_of (some e) = e.state

unfoldable pub runs : Bool → RunState → Bool
runs retry pass = false
runs retry fail = retry
runs retry skipped = false
runs retry _ = true

unfoldable pub should_run : State → (collector : String) → Bool → Bool
should_run value collector retry = runs retry (state_of (lookup collector value.collectors))
