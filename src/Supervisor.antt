-- ===== src/Supervisor.antt =====
-- tools/eks-assessment/src/assessment_process_supervisor.py: the state of `CollectionSupervisor`
-- and its methods, each split where it gives up the lock. Times are milliseconds of the monotonic
-- clock; the wall-clock texts of the state are left out.
pub mod Events
pub mod Run
pub mod Invariant
mod Examples
use k8s_lab_vmware.Prelude.{
  ℕ, ◌+◌, ◌-◌, ◌*◌, ◌/◌, min, max, String, List, [], ◌∷◌, ◌++◌, map, Bool, true, false, not, Option,
  none, some, if◌then◌else◌, get_or, ◌==◌, or_text, mem, keep, sum_by, leb, nat_eq, is_empty, Dict,
  lookup, insert,
}
use k8s_lab_vmware.Prelude.Int.{ℤ, pos}
use k8s_lab_vmware.Prelude.Result.{Result, ok, err}
use k8s_lab_vmware.Prelude.Rounding.{round_div}

-- `stop` is the event `_stop`, `process` the id of `_process`; a deadline and a start are clock
-- readings.
pub record State : Type 0 where
  pub stop : Bool
  pub process : Option ℕ
  pub deadline : ℕ
  pub started : ℕ
  pub active : Bool
  pub status : String
  pub collection : String
  pub component : String
  pub pid : Option ℕ
  pub max_duration_seconds : ℕ
  pub cancel_requested : Bool
  pub stop_kind : String
  pub reason : String
  pub planned : List String
  pub weights : Dict ℕ
  pub completed : List String
  pub durations : Dict ℕ
  pub progress : ℕ
  pub duration : Option ℕ

-- `__init__`; a key that the first dictionary lacks has its empty value.
abbrev pub new_supervisor : State
new_supervisor = record {
  stop = false;
  process = none;
  deadline = 0;
  started = 0;
  active = false;
  status = "IDLE";
  collection = "";
  component = "";
  pid = none;
  max_duration_seconds = 0;
  cancel_requested = false;
  stop_kind = "";
  reason = "";
  planned = [];
  weights = [];
  completed = [];
  durations = [];
  progress = 0;
  duration = none;
}

-- The `RuntimeError`s.
pub data Error : Type 0 where
  already_active not_active : Error

abbrev pub bounded_duration : ℕ → ℕ
bounded_duration seconds = max 60 (min seconds 7200)

unfoldable pub start :
    (now : ℕ) (collection : String) (seconds : ℕ) (planned : List String)
    → Dict ℕ
    → State
    → Result Error State
start now collection seconds planned weights s =
    if s.active
    then err already_active
    else ok (record {
      stop = false;
      process = none;
      deadline = now + bounded_duration seconds * 1000;
      started = now;
      active = true;
      status = "RUNNING";
      collection = collection;
      component = "preparing";
      pid = none;
      max_duration_seconds = bounded_duration seconds;
      cancel_requested = false;
      stop_kind = "";
      reason = "";
      planned = planned;
      weights = map (λ (p : String × ℕ). (p.0, max 1 p.1)) weights;
      completed = [];
      durations = [];
      progress = 0;
      duration = none;
    })

unfoldable pub mark_stop : (kind reason : String) → State → State
mark_stop kind reason s = record s {
  stop = true;
  cancel_requested = kind == "CANCELLED";
  stop_kind = kind;
  status = kind;
  reason = reason;
}

-- `if not self._stop.is_set(): self._mark_stop(…)`
unfoldable pub mark_first : (kind reason : String) → State → State
unfolding mark_stop
mark_first kind reason s = if s.stop then s else mark_stop kind reason s

-- The result, the new state, and the process to terminate.
unfoldable pub cancel : String → State → Bool × State × Option ℕ
unfolding mark_first
cancel reason s =
    if s.active then (true, mark_first "CANCELLED" reason s, s.process) else (false, s, none)

abbrev pub shutdown : State → Bool × State × Option ℕ
shutdown s = cancel "dashboard shutdown" s

-- A `CompletedProcess`, less its arguments.
pub record Completed : Type 0 where
  pub returncode : ℤ
  pub stdout : String
  pub stderr : String

unfoldable pub stopped_result : State → Completed
stopped_result s = record {
  returncode = if s.stop_kind == "TIMED_OUT" then pos 124 else pos 130;
  stdout = "";
  stderr = or_text s.reason "collection stopped";
}

-- What the first block of `run` decides.
pub data Entry : Type 0 where
  refused : Error → Entry
  stopped : Completed → Entry
  allowed : (effective_timeout : ℕ) → Entry

unfoldable pub begin : (now : ℕ) (component : String) (timeout : ℕ) → State → Entry × State
unfolding mark_stop stopped_result
begin now component timeout s =
    if not s.active
    then (refused not_active, s)
    else if s.stop
    then (stopped (stopped_result s), s)
    else if leb s.deadline now
    then (let s' = mark_stop "TIMED_OUT" "collection time budget exhausted" s in
        (stopped (stopped_result s'), s'))
    else (allowed (max 50 (min timeout (s.deadline - now))), record s { component = component })

-- The block after `Popen`.
unfoldable pub launched : ℕ → State → State
launched pid s = record s { process = some pid; pid = some pid }

-- The block under `except subprocess.TimeoutExpired`; `reason` is its formatted text.
unfoldable pub expired : (reason : String) → State → State
unfolding mark_first
expired reason s = mark_first "TIMED_OUT" reason s

abbrev pub weight_of : Dict ℕ → String → ℕ
weight_of weights id = max 1 (get_or (lookup id weights) 1)

unfoldable pub progress_of : Dict ℕ → (planned completed : List String) → ℕ
progress_of weights planned completed = min 99 (
    round_div (sum_by (weight_of weights) (keep (λ id. mem id planned) completed) * 100)
      (sum_by (weight_of weights) planned))

abbrev pub is_own : Option ℕ → ℕ → Bool
is_own none pid = false
is_own (some other) pid = nat_eq other pid

-- The `finally` block; `elapsed` is the duration of the component.
unfoldable pub settled : (component : String) (pid elapsed : ℕ) → State → State
unfolding progress_of
settled component pid elapsed s =
    let own = is_own s.process pid in
    let completed =
      if mem component s.completed then s.completed else s.completed ++ component ∷ [] in
    record s {
      process = if own then none else s.process;
      pid = if own then none else s.pid;
      completed = completed;
      progress =
          if is_empty s.planned then s.progress else progress_of s.weights s.planned completed;
      durations = insert component elapsed s.durations;
    }

-- `finish`; no status is the empty text. `process` stays as it is.
unfoldable pub finish : (now : ℕ) (status : String) → State → State
finish now status s =
    if s.active
    then (let inferred = or_text s.stop_kind (or_text status "COMPLETED") in
        record s {
          status = inferred;
          active = false;
          component = "";
          pid = none;
          duration = some (now - s.started);
          progress = if inferred == "COMPLETED" then 100 else s.progress;
        })
    else s

-- The two fields that `status` adds to the state: milliseconds elapsed, whole seconds remaining.
unfoldable pub remaining_seconds : (now : ℕ) → State → ℕ
remaining_seconds now s = if s.active then (s.deadline - now) / 1000 else 0

unfoldable pub elapsed : (now : ℕ) → State → ℕ
elapsed now s = if nat_eq s.started 0 then 0 else now - s.started
