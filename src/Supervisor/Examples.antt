-- ===== src/Supervisor/Examples.antt =====
-- Runs of the supervisor with two threads.
use k8s_lab_vmware.Prelude.{
  ℕ, ◌-◌, ◌≤◌, ◌<◌, min, max, String, List, [], ◌∷◌, ◌≡◌, ◌≢◌, refl, true, false, All, Has,
}
use k8s_lab_vmware.Prelude.Int.{pos}
use k8s_lab_vmware.Supervisor.{
  State, Completed, allowed, new_supervisor, start, cancel, mark_first, mark_stop, begin, launched,
  settled, expired, finish,
}
use k8s_lab_vmware.Supervisor.Events.{
  Event, starts, cancels, begins, launches, expires, settles, finishes, step, steps,
}
use k8s_lab_vmware.Supervisor.Run.{
  Process, exited, Others, returned, run, attend, terminated, settled_run, ended, result_of,
}
use k8s_lab_vmware.Supervisor.Run.Success.{Succeeded, run-Succeeded, cancel-begin, finish-stopped}
use k8s_lab_vmware.Supervisor.Run.Race.{IsQuiet, launched_pids, cancel-attend}
use k8s_lab_vmware.Supervisor.Invariant.{IsSound, SameStop, steps-same, new_supervisor-steps}

abbrev planned : List String
planned = "preflight" ∷ "cis" ∷ []

abbrev begun : List Event
begun = starts 1000 "c-1" 300 planned (("cis", 3) ∷ []) ∷ []

abbrev events : List Event
events =
    starts 1000 "c-1" 300 planned (("cis", 3) ∷ [])
    ∷ begins 2000 "preflight" 60000
    ∷ launches 71
    ∷ settles "preflight" 71 900
    ∷ begins 3000 "cis" 60000
    ∷ launches 72
    ∷ cancels "operator request"
    ∷ expires "component cis exceeded 60.0s"
    ∷ settles "cis" 72 500
    ∷ []

new_supervisor-steps_example : IsSound (steps events new_supervisor)
new_supervisor-steps_example = new_supervisor-steps events

events-active : (steps events new_supervisor).active ≡ true
unfolding steps step start cancel mark_first mark_stop begin launched settled expired
events-active = refl

events-stop : (steps events new_supervisor).stop ≡ true
unfolding steps step start cancel mark_first mark_stop begin launched settled expired
events-stop = refl

finish-stopped_example :
    ((finish 9000 "COMPLETED" (steps events new_supervisor)).status
      ≡ (steps events new_supervisor).stop_kind)
    × ((finish 9000 "COMPLETED" (steps events new_supervisor)).progress ≤ 99)
finish-stopped_example = finish-stopped events 9000 "COMPLETED" events-active events-stop

events-done : (finish 9000 "COMPLETED" (steps events new_supervisor)).status ≡ "CANCELLED"
unfolding steps step start cancel mark_first mark_stop begin launched settled expired finish
events-done = refl

steps-same_example :
    SameStop
      (steps events new_supervisor)
      (steps (expires "late" ∷ finishes 9500 "" ∷ []) (steps events new_supervisor))
steps-same_example =
    steps-same (expires "late" ∷ finishes 9500 "" ∷ []) (steps events new_supervisor) refl
      events-stop

begun-active : (steps begun new_supervisor).active ≡ true
unfolding steps step start
begun-active = refl

cancel-begin_example :
    (begin 5000 "cis" 60000 (
      steps
        (settles "cis" 72 500 ∷ [])
        (cancel "operator request" (steps begun new_supervisor)).1)).0
    ≢ allowed 60000
cancel-begin_example =
    cancel-begin "operator request" (settles "cis" 72 500 ∷ []) 5000 "cis" 60000
      (steps begun new_supervisor) 60000 begun-active refl

-- The process ends while another thread runs a second component.
abbrev others : Others
others = record {
  before_launch = [];
  before_end = begins 2500 "cis" 1000 ∷ launches 72 ∷ [];
  before_settled = settles "cis" 72 400 ∷ [];
  before_return = [];
  elapsed = 900;
}

abbrev process : ℕ → Process
process n = exited 71 (pos 0) "ok" ""

abbrev succeeded : Completed
succeeded = record { returncode = pos 0; stdout = "ok"; stderr = "" }

abbrev after_run : State
after_run = (run 2000 "preflight" 60000 process others (steps begun new_supervisor)).1

run-ok :
    run 2000 "preflight" 60000 process others (steps begun new_supervisor)
    ≡ (returned succeeded, after_run)
unfolding run attend settled_run ended result_of steps step start begin launched settled
run-ok = refl

run-Succeeded_example :
    ((steps begun new_supervisor).active ≡ true)
    × ((steps begun new_supervisor).stop ≡ false)
    × (2000 < (steps begun new_supervisor).deadline)
    × Succeeded
        (process (max 50 (min 60000 ((steps begun new_supervisor).deadline - 2000))))
        after_run
run-Succeeded_example =
    run-Succeeded 2000 "preflight" 60000 process others (steps begun new_supervisor) after_run
      succeeded run-ok refl

-- The cancel comes after the first block of the run, and before its process is registered.
abbrev late_cancel : Others
late_cancel = record {
  before_launch = begins 2500 "cis" 1000 ∷ cancels "operator request" ∷ expires "late" ∷ [];
  before_end = settles "cis" 72 400 ∷ [];
  before_settled = [];
  before_return = finishes 9000 "" ∷ [];
  elapsed = 900;
}

late_cancel-IsQuiet : IsQuiet late_cancel
late_cancel-IsQuiet = record { end = refl; settling = refl; return = refl }

abbrev admitted : State
admitted = (begin 2000 "preflight" 60000 (steps begun new_supervisor)).1

admitted-active : (steps (begins 2500 "cis" 1000 ∷ []) admitted).active ≡ true
unfolding steps step start begin
admitted-active = refl

cancel-attend_example :
    ((attend "preflight" (process 60000) late_cancel admitted).0.returncode ≢ pos 0)
    × All
        (λ pid. Has pid (terminated (process 60000) late_cancel admitted))
        (launched_pids (process 60000))
cancel-attend_example =
    cancel-attend "preflight" (process 60000) late_cancel admitted (begins 2500 "cis" 1000 ∷ [])
      (expires "late" ∷ []) "operator request" refl admitted-active refl late_cancel-IsQuiet
