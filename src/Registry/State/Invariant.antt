-- ===== src/Registry/State/Invariant.antt =====
-- Any sequence of `mark` commands on a file that `init` wrote.
use k8s_lab_vmware.Prelude.{
  ℕ, ◌+◌, ◌≤◌, String, List, [], ◌∷◌, ◌≡◌, refl, Bool, true, false, ◌&&◌, Option, none,
  if◌then◌else◌, mem, lookup, lookup-insert, ◌==◌, eq_iff, arith, Bool-cases, inl, inr, is_some,
  count,
}
use k8s_lab_vmware.Prelude.Int.{ℤ}
use k8s_lab_vmware.Prelude.Result.{Result, ok, err}
use k8s_lab_vmware.Registry.{PlanItem}
use k8s_lab_vmware.Registry.Progress.{
  RunState, running, is_terminal, CollectorState, calculate_progress, completed,
}
use k8s_lab_vmware.Registry.Progress.Bounds.{calculate_progress_mono}
use k8s_lab_vmware.Registry.State.{
  State, old_or_fresh, previous_collectors, init_state, mark_times, mark_result, mark_entry,
  update_state,
}
use k8s_lab_vmware.Registry.State.Effects.{
  item_ids, marked, updated, lookup-init_entries, mark_entry-state,
}

-- The arguments of a `mark` command.
pub record Mark : Type 0 where
  pub now : String
  pub collector : String
  pub state : RunState
  pub exit_code : Option ℤ
  pub detail : String

abbrev kept_on_error : State → Result k8s_lab_vmware.Registry.State.Error State → State
kept_on_error value (ok new) = new
kept_on_error value (err e) = value

-- One command: a refused one writes nothing.
pub run_mark : State → Mark → State
run_mark value m =
    kept_on_error value (update_state m.now value m.collector m.state m.exit_code m.detail)

pub run_marks : State → List Mark → State
run_marks value [] = value
run_marks value (m ∷ ms) = run_marks (run_mark value m) ms

-- The stored progress is that of the stored entries, and every item of the plan has an entry.
pub record IsConsistent (s : State) : Type 0 where
  pub progress : s.progress_percent ≡ calculate_progress s.plan s.collectors
  pub entries :
      (id : String) → mem id (item_ids s.plan) ≡ true → is_some (lookup id s.collectors) ≡ true

pub init_state-IsConsistent :
    (collection now : String) (saved : Option State) (plan : List PlanItem) (resume retry : Bool)
    → IsConsistent (init_state collection now saved plan resume retry)
unfolding init_state
init_state-IsConsistent collection now saved plan resume retry = record {
  progress = refl;
  entries = λ id h. rw (
    lookup-init_entries retry (previous_collectors (if resume then saved else none)) [] plan id,
    h,
  );
}

updated-IsConsistent :
    (m : Mark) (value : State)
    → IsConsistent value
    → IsConsistent (updated m.now value m.collector m.state m.exit_code m.detail)
updated-IsConsistent m value v = record {
  progress = refl;
  entries = λ id h. ground (
    arith,
    v.entries id h,
    lookup-insert m.collector id (marked m.now value m.collector m.state m.exit_code m.detail)
        value.collectors,
  );
}

run_mark-IsConsistent :
    (m : Mark) (value : State) → IsConsistent value → IsConsistent (run_mark value m)
unfolding run_mark update_state
run_mark-IsConsistent m value v = elim (Bool-cases (mem m.collector (item_ids value.plan))) [
  | inl e ↦ rw e (updated-IsConsistent m value v)
  | inr e ↦ rw e v
]

run_marks-IsConsistent :
    (ms : List Mark) (value : State) → IsConsistent value → IsConsistent (run_marks value ms)
unfolding run_marks
run_marks-IsConsistent [] value v = v
run_marks-IsConsistent (m ∷ ms) value v =
    run_marks-IsConsistent ms (run_mark value m) (run_mark-IsConsistent m value v)

-- After `init_state` and any sequence of marks, accepted or refused, the stored progress is that
-- of the stored entries and every item of the plan has an entry.
pub init_marks-IsConsistent :
    (collection now : String) (saved : Option State) (plan : List PlanItem) (resume retry : Bool)
    (ms : List Mark)
    → IsConsistent (run_marks (init_state collection now saved plan resume retry) ms)
init_marks-IsConsistent collection now saved plan resume retry ms =
    run_marks-IsConsistent ms (init_state collection now saved plan resume retry)
      (init_state-IsConsistent collection now saved plan resume retry)

abbrev pub attempts_of : String → State → ℕ
attempts_of id s = (old_or_fresh (lookup id s.collectors)).attempts

-- A mark that starts this collector.
abbrev pub starts : String → Mark → Bool
starts id m = m.collector == id && elim m.state [ running ↦ true | _ ↦ false ]

marked-attempts :
    (now : String) (s : RunState) (code : Option ℤ) (detail : String) (e : CollectorState)
    → (mark_entry now s code detail e).attempts
      ≡ e.attempts + (if elim s [ running ↦ true | _ ↦ false ] then 1 else 0)
unfolding mark_entry mark_times mark_result
marked-attempts now s code detail e = ground arith

run_mark-plan : (m : Mark) (value : State) → (run_mark value m).plan ≡ value.plan
unfolding run_mark update_state
run_mark-plan m value = ground arith

run_mark-attempts :
    (m : Mark) (value : State) (id : String)
    → mem id (item_ids value.plan) ≡ true
    → attempts_of id (run_mark value m) ≡ attempts_of id value + (if starts id m then 1 else 0)
unfolding run_mark update_state
run_mark-attempts m value id h =
    let old = old_or_fresh (lookup m.collector value.collectors) in
    ground (
      arith,
      lookup-insert m.collector id (marked m.now value m.collector m.state m.exit_code m.detail)
          value.collectors,
      marked-attempts m.now m.state m.exit_code m.detail old,
      eq_iff m.collector id,
    )

-- For a collector of the plan: its attempts grow by exactly the number of accepted RUNNING marks
-- that name it, whatever other marks stand between them.
pub run_marks-attempts :
    (ms : List Mark) (value : State) (id : String)
    → mem id (item_ids value.plan) ≡ true
    → attempts_of id (run_marks value ms) ≡ attempts_of id value + count (starts id) ms
unfolding run_marks
run_marks-attempts [] value id h = omega arith
run_marks-attempts (m ∷ ms) value id h = ground (
  arith,
  run_marks-attempts ms (run_mark value m) id (rw (run_mark-plan m value) h),
  run_mark-attempts m value id h,
)

updated-completed :
    (m : Mark) (value : State) (i : PlanItem)
    → is_terminal m.state ≡ true
    → completed value.collectors i ≡ true
    → completed (updated m.now value m.collector m.state m.exit_code m.detail).collectors i ≡ true
updated-completed m value i t h =
    let old = old_or_fresh (lookup m.collector value.collectors) in
    ground (
      arith,
      lookup-insert m.collector i.id (marked m.now value m.collector m.state m.exit_code m.detail)
          value.collectors,
      mark_entry-state m.now m.state m.exit_code m.detail old,
    )

-- A mark with a terminal state never lowers the progress of a consistent file, and the progress
-- stays at most 100.
pub run_mark-progress :
    (m : Mark) (value : State)
    → IsConsistent value
    → is_terminal m.state ≡ true
    → (value.progress_percent ≤ (run_mark value m).progress_percent)
      × ((run_mark value m).progress_percent ≤ 100)
unfolding run_mark update_state
run_mark-progress m value v t =
    let new = updated m.now value m.collector m.state m.exit_code m.detail in
    elim (Bool-cases (mem m.collector (item_ids value.plan))) [
      | inl e ↦
          rw (e, v.progress)
            (calculate_progress_mono value.plan value.collectors new.collectors
              (λ i h. updated-completed m value i t h))
      | inr e ↦
          rw (e, v.progress)
            (calculate_progress_mono value.plan value.collectors value.collectors (λ i h. h))
    ]
