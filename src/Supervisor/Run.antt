-- ===== src/Supervisor/Run.antt =====
-- `run` as a whole: its blocks in order, with what other threads do between them.
pub mod Success
pub mod Race
use k8s_lab_vmware.Prelude.{ℕ, String, List, [], ◌∷◌, ◌++◌, if◌then◌else◌, or_text}
use k8s_lab_vmware.Prelude.Int.{ℤ, pos}
use k8s_lab_vmware.Supervisor.{
  State, Error, Completed, Entry, refused, stopped, allowed, begin, launched, expired, settled,
  stopped_result,
}
use k8s_lab_vmware.Supervisor.Events.{Event, steps}

-- What the operating system does with the process: `Popen` fails; the process ends in time; or it
-- passes the timeout, `reason` then being the text about it.
pub data Process : Type 0 where
  not_started : (error : String) → Process
  exited : (pid : ℕ) (code : ℤ) (stdout stderr : String) → Process
  overran : (pid : ℕ) (reason stdout stderr : String) → Process

-- The events of other threads after each block of this call, and the measured duration.
pub record Others : Type 0 where
  pub before_launch : List Event
  pub before_end : List Event
  pub before_settled : List Event
  pub before_return : List Event
  pub elapsed : ℕ

-- The return code of the process, or 124.
abbrev pub code_of : Process → ℤ
code_of (exited pid code stdout stderr) = code
code_of _ = pos 124

unfoldable pub ended : Process → State → State
ended (overran pid reason stdout stderr) s = expired reason s
ended _ s = s

-- From the registration of the process to the end of the `finally` block, and to the return.
unfoldable pub settled_run : (component : String) (pid : ℕ) → Process → Others → State → State
unfolding ended
settled_run component pid p o s =
    let over = ended p (steps o.before_end (launched pid (steps o.before_launch s))) in
    steps o.before_return (settled component pid o.elapsed (steps o.before_settled over))

unfoldable pub result_of : (code : ℤ) (stdout stderr : String) → State → Completed
result_of code stdout stderr s =
    if s.stop
    then record {
      returncode = (stopped_result s).returncode;
      stdout = stdout;
      stderr = or_text stderr (stopped_result s).stderr;
    }
    else record { returncode = code; stdout = stdout; stderr = stderr }

-- What `run` does once its first block allowed it, with the time that it allowed.
unfoldable pub attend : (component : String) → Process → Others → State → Completed × State
unfolding settled_run result_of
attend component (not_started error) o s =
    let s' = steps o.before_launch s in
    (record { returncode = pos 127; stdout = ""; stderr = error }, s')
attend component (exited pid code stdout stderr) o s =
    let s' = settled_run component pid (exited pid code stdout stderr) o s in
    (result_of code stdout stderr s', s')
attend component (overran pid reason stdout stderr) o s =
    let s' = settled_run component pid (overran pid reason stdout stderr) o s in
    (result_of (pos 124) stdout stderr s', s')

-- `if stopped: terminate_process_tree(process)`
unfoldable pub terminated_at_launch : (pid : ℕ) → Others → State → List ℕ
terminated_at_launch pid o s =
    let registered = launched pid (steps o.before_launch s) in
    if registered.stop then pid ∷ [] else []

-- The calls of `terminate_process_tree` that this call makes, once its first block allowed it.
unfoldable pub terminated : Process → Others → State → List ℕ
unfolding terminated_at_launch
terminated (not_started error) o s = []
terminated (exited pid code stdout stderr) o s = terminated_at_launch pid o s
terminated (overran pid reason stdout stderr) o s = terminated_at_launch pid o s ++ pid ∷ []

-- A raised error, or the completed process. `process` gives the behaviour of the process for the
-- effective timeout.
pub data Outcome : Type 0 where
  raised : Error → Outcome
  returned : Completed → Outcome

abbrev pub run_from :
    (component : String) (process : ℕ → Process) → Others → Entry → State → Outcome × State
run_from component process o (refused e) s = (raised e, s)
run_from component process o (stopped c) s = (returned c, s)
run_from component process o (allowed effective) s = (
  returned (attend component (process effective) o s).0,
  (attend component (process effective) o s).1,
)

unfoldable pub run :
    (now : ℕ) (component : String) (timeout : ℕ) (process : ℕ → Process)
    → Others
    → State
    → Outcome × State
unfolding attend
run now component timeout process o s =
    run_from component process o (begin now component timeout s).0 (begin now component timeout s).1
