-- ===== src/Supervisor/Events.antt =====
-- The methods of `CollectionSupervisor` as events of any number of threads: what one block under the
-- lock does to the state.
use k8s_lab_vmware.Prelude.{ℕ, String, List, [], ◌∷◌, Bool, true, false, Dict}
use k8s_lab_vmware.Prelude.Result.{Result, ok, err}
use k8s_lab_vmware.Supervisor.{
  State, Error, start, cancel, begin, launched, expired, settled, finish,
}

pub data Event : Type 0 where
  starts : (now : ℕ) (collection : String) (seconds : ℕ) (planned : List String) → Dict ℕ → Event
  cancels : (reason : String) → Event
  begins : (now : ℕ) (component : String) (timeout : ℕ) → Event
  launches : (pid : ℕ) → Event
  expires : (reason : String) → Event
  settles : (component : String) (pid elapsed : ℕ) → Event
  finishes : (now : ℕ) (status : String) → Event

-- A method that raises leaves the state.
abbrev pub kept_on_error : State → Result Error State → State
kept_on_error s (ok s') = s'
kept_on_error s (err e) = s

unfoldable pub step : Event → State → State
step (starts now collection seconds planned weights) s =
    kept_on_error s (start now collection seconds planned weights s)
step (cancels reason) s = (cancel reason s).1
step (begins now component timeout) s = (begin now component timeout s).1
step (launches pid) s = launched pid s
step (expires reason) s = expired reason s
step (settles component pid elapsed) s = settled component pid elapsed s
step (finishes now status) s = finish now status s

unfoldable pub steps : List Event → State → State
unfolding step
steps [] s = s
steps (e ∷ es) s = steps es (step e s)

abbrev pub is_start : Event → Bool
is_start (starts now collection seconds planned weights) = true
is_start _ = false
