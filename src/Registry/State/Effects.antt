-- ===== src/Registry/State/Effects.antt =====
-- What `init_state` and `update_state` change, as `should_run` sees it afterwards.
use k8s_lab_vmware.Prelude.{
  String, List, [], ◌∷◌, map, ◌≡◌, refl, Bool, true, ◌||◌, Option, none, some, if◌then◌else◌, mem,
  Dict, lookup, insert, lookup-insert, ◌==◌, eq_iff, arith,
}
use k8s_lab_vmware.Prelude.Int.{ℤ}
use k8s_lab_vmware.Prelude.Result.{ok, guarded-eq-ok}
use k8s_lab_vmware.Registry.{PlanItem}
use k8s_lab_vmware.Registry.Progress.{
  RunState, pass, fail, skipped, CollectorState, calculate_progress,
}
use k8s_lab_vmware.Registry.State.{
  State, runs_again, old_or_fresh, init_entry, init_entries, previous_collectors, init_state,
  mark_result, mark_entry, update_state, state_of, runs, should_run, not_in_plan,
}

abbrev pub item_ids : List PlanItem → List String
item_ids plan = map (λ i. i.id) plan

pub lookup-init_entries :
    (retry : Bool) (old d : Dict CollectorState) (plan : List PlanItem) (id : String)
    → lookup id (init_entries retry old d plan)
      ≡ (if mem id (item_ids plan) then some (init_entry retry old id) else lookup id d)
unfolding init_entries mem
lookup-init_entries retry old d [] id = refl
lookup-init_entries retry old d (i ∷ plan) id = ground (
  arith,
  lookup-init_entries retry old (insert i.id (init_entry retry old i.id) d) plan id,
  lookup-insert i.id id (init_entry retry old i.id) d,
  eq_iff i.id id,
  eq_iff id i.id,
)

runs-runs_again : (retry : Bool) (s : RunState) → runs_again retry s ≡ true → runs retry s ≡ true
unfolding runs runs_again
runs-runs_again retry fail h = h
runs-runs_again retry pass h = cc
runs-runs_again retry skipped h = cc
runs-runs_again retry _ h = refl

init_entry-runs :
    (retry : Bool) (old : Dict CollectorState) (id : String)
    → runs retry (init_entry retry old id).state
      ≡ (id == "preflight" || runs retry (state_of (lookup id old)))
unfolding init_entry runs runs_again
init_entry-runs retry old id = ground arith

-- For an item of the plan, whatever was saved: after `init_state` the item is to run exactly if it
-- is the preflight, or if the saved state (kept only by a resume) asks for it: it was not finished
-- with PASS or SKIPPED, nor with FAIL unless failed collectors are retried.
pub should_run-init_state :
    (collection now : String) (saved : Option State) (plan : List PlanItem) (resume retry : Bool)
    (id : String)
    → mem id (item_ids plan) ≡ true
    → should_run (init_state collection now saved plan resume retry) id retry ≡ (
        id == "preflight"
        || runs retry (state_of (lookup id (previous_collectors (if resume then saved else none)))))
unfolding should_run init_state
should_run-init_state collection now saved plan resume retry id h =
    let old = previous_collectors (if resume then saved else none) in
    rw (lookup-init_entries retry old [] plan id, h) (init_entry-runs retry old id)

pub mark_entry-state :
    (now : String) (s : RunState) (code : Option ℤ) (detail : String) (e : CollectorState)
    → (mark_entry now s code detail e).state ≡ s
unfolding mark_entry mark_result
mark_entry-state now s code detail e = refl

-- The new entry of a marked collector, and the new file.
abbrev pub marked : String → State → String → RunState → Option ℤ → String → CollectorState
marked now value collector s code detail =
    mark_entry now s code detail (old_or_fresh (lookup collector value.collectors))

abbrev pub updated : String → State → String → RunState → Option ℤ → String → State
updated now value collector s code detail =
    let collectors = insert collector (marked now value collector s code detail) value.collectors in
    record value {
      collectors = collectors;
      updated_at = now;
      progress_percent = calculate_progress value.plan collectors;
    }

pub update_state-eq-ok :
    (now : String) (value new : State) (collector : String) (s : RunState) (code : Option ℤ)
    (detail : String)
    → update_state now value collector s code detail ≡ ok new
    → (mem collector (item_ids value.plan) ≡ true)
      × (updated now value collector s code detail ≡ new)
unfolding update_state
update_state-eq-ok now value new collector s code detail h =
    guarded-eq-ok (mem collector (item_ids value.plan)) (not_in_plan collector)
      (updated now value collector s code detail) h

-- Marking a collector of the plan decides whether it is to run by its new state, and leaves every
-- other collector's answer as it was.
pub should_run-update_state :
    (now : String) (value new : State) (collector j : String) (s : RunState) (code : Option ℤ)
    (detail : String) (retry : Bool)
    → update_state now value collector s code detail ≡ ok new
    → should_run new j retry ≡ (if collector == j then runs retry s else should_run value j retry)
unfolding should_run
should_run-update_state now value new collector j s code detail retry h =
    let (planned, e) = update_state-eq-ok now value new collector s code detail h in
    rw (← e) (
      ground (
        arith,
        lookup-insert collector j (marked now value collector s code detail) value.collectors,
        mark_entry-state now s code detail (old_or_fresh (lookup collector value.collectors)),
      ))
