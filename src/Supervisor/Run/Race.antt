-- ===== src/Supervisor/Run/Race.antt =====
-- A cancel that comes between the first block of `run` and the launch of the process.
use k8s_lab_vmware.Prelude.{
  ℕ, String, List, [], ◌∷◌, ◌++◌, ◌≡◌, ◌≢◌, refl, ◌∙◌, ap, true, false, any, All, Has,
  Has-append_left, inl, arith,
}
use k8s_lab_vmware.Prelude.Int.{pos}
use k8s_lab_vmware.Supervisor.{State, cancel, launched, settled}
use k8s_lab_vmware.Supervisor.Events.{Event, cancels, expires, step, steps, is_start}
use k8s_lab_vmware.Supervisor.Invariant.{steps-same}
use k8s_lab_vmware.Supervisor.Run.{
  Process, not_started, exited, overran, Others, ended, settled_run, attend, terminated_at_launch,
  terminated,
}
use k8s_lab_vmware.Supervisor.Run.Success.{cancel-stop, result_of-zero, stop_ne}

-- The process that is launched, if any.
abbrev pub launched_pids : Process → List ℕ
launched_pids (not_started error) = []
launched_pids (exited pid code stdout stderr) = pid ∷ []
launched_pids (overran pid reason stdout stderr) = pid ∷ []

steps-append : (es es' : List Event) (s : State) → steps (es ++ es') s ≡ steps es' (steps es s)
unfolding steps
steps-append [] es' s = refl
steps-append (e ∷ es) es' s = steps-append es es' (step e s)

steps-stop :
    (es : List Event) (s : State)
    → any is_start es ≡ false
    → s.stop ≡ true
    → (steps es s).stop ≡ true
steps-stop es s quiet h = (steps-same es s quiet h).stop ∙ h

cancelled :
    (es es' : List Event) (reason : String) (s : State)
    → (steps es s).active ≡ true
    → any is_start es' ≡ false
    → (steps (es ++ cancels reason ∷ es') s).stop ≡ true
unfolding steps step
cancelled es es' reason s active quiet =
    let t = (cancel reason (steps es s)).1 in
    ap (λ (x : State). x.stop) (steps-append es (cancels reason ∷ es') s)
    ∙ steps-stop es' t quiet (cancel-stop reason (steps es s) active)

ended-stop : (p : Process) (s : State) → s.stop ≡ true → (ended p s).stop ≡ true
unfolding ended steps step
ended-stop (overran pid reason stdout stderr) s h = steps-stop (expires reason ∷ []) s refl h
ended-stop (not_started error) s h = h
ended-stop (exited pid code stdout stderr) s h = h

-- No start by another thread after the launch.
pub record IsQuiet (o : Others) : Type 0 where
  pub end : any is_start o.before_end ≡ false
  pub settling : any is_start o.before_settled ≡ false
  pub return : any is_start o.before_return ≡ false

settled_run-stop :
    (component : String) (pid : ℕ) (p : Process) (o : Others) (s : State)
    → IsQuiet o
    → (steps o.before_launch s).stop ≡ true
    → (settled_run component pid p o s).stop ≡ true
unfolding settled_run launched settled
settled_run-stop component pid p o s q h =
    let registered = launched pid (steps o.before_launch s) in
    let over = ended p (steps o.before_end registered) in
    let stopped = ended-stop p _ (steps-stop o.before_end registered q.end h) in
    let left = steps-stop o.before_settled over q.settling stopped in
    steps-stop o.before_return (settled component pid o.elapsed (steps o.before_settled over))
      q.return left

at_launch :
    (pid : ℕ) (o : Others) (s : State)
    → (steps o.before_launch s).stop ≡ true
    → Has pid (terminated_at_launch pid o s)
unfolding terminated_at_launch launched
at_launch pid o s h = rw h (inl refl)

failed_start : pos 127 ≢ pos 0
failed_start h = ground arith

stopped_attend :
    (component : String) (p : Process) (o : Others) (s : State)
    → IsQuiet o
    → (steps o.before_launch s).stop ≡ true
    → ((attend component p o s).0.returncode ≢ pos 0)
      × All (λ pid. Has pid (terminated p o s)) (launched_pids p)
unfolding attend terminated
stopped_attend component (not_started error) o s q h = (failed_start, tt)
stopped_attend component (exited pid code stdout stderr) o s q h = (
  λ e.
      stop_ne (settled_run-stop component pid (exited pid code stdout stderr) o s q h)
        (result_of-zero code stdout stderr _ e).0,
  (at_launch pid o s h, tt),
)
stopped_attend component (overran pid reason stdout stderr) o s q h = (
  λ e.
      stop_ne (settled_run-stop component pid (overran pid reason stdout stderr) o s q h)
        (result_of-zero (pos 124) stdout stderr _ e).0,
  (Has-append_left pid (terminated_at_launch pid o s) (pid ∷ []) (at_launch pid o s h), tt),
)

-- A run that has passed its first block, when another thread cancels the active collection before
-- the process is registered, without a start later on: a process that is launched nevertheless is
-- terminated by this call, and the call does not return 0, whatever the process and the other
-- threads do.
pub cancel-attend :
    (component : String) (p : Process) (o : Others) (s : State) (es es' : List Event)
    (reason : String)
    → o.before_launch ≡ es ++ cancels reason ∷ es'
    → (steps es s).active ≡ true
    → any is_start es' ≡ false
    → IsQuiet o
    → ((attend component p o s).0.returncode ≢ pos 0)
      × All (λ pid. Has pid (terminated p o s)) (launched_pids p)
cancel-attend component p o s es es' reason e active quiet q =
    stopped_attend component p o s q
      (ap (λ x. (steps x s).stop) e ∙ cancelled es es' reason s active quiet)
