-- ===== src/Supervisor/Run/Success.antt =====
-- What a successful run and a cancelled collection show.
use k8s_lab_vmware.Prelude.{
  ℕ, ◌-◌, ◌≤◌, ◌<◌, min, max, String, List, ◌≡◌, ◌≢◌, refl, ◌∙◌, ap, Bool, true, false, arith, any,
  inl, inr, subst,
}
use k8s_lab_vmware.Prelude.Int.{ℤ, pos}
use k8s_lab_vmware.Supervisor.{
  State, Completed, Entry, refused, stopped, allowed, new_supervisor, begin, stopped_result, cancel,
  mark_first, mark_stop, finish,
}
use k8s_lab_vmware.Supervisor.Events.{Event, steps, is_start}
use k8s_lab_vmware.Supervisor.Invariant.{IsKind, steps-same, new_supervisor-steps}
use k8s_lab_vmware.Supervisor.Run.{
  Process, not_started, exited, overran, Others, result_of, attend, Outcome, returned, run_from,
  run,
}

pos_inj : {m n : ℕ} → pos m ≡ pos n → m ≡ n
pos_inj h = cc

stopped_result-nonzero : (s : State) → (stopped_result s).returncode ≢ pos 0
unfolding stopped_result
stopped_result-nonzero s h = ground arith

pub result_of-zero :
    (code : ℤ) (out text : String) (s : State)
    → (result_of code out text s).returncode ≡ pos 0
    → (s.stop ≡ false) × (code ≡ pos 0)
unfolding result_of
result_of-zero code out text s h = ground (arith, stopped_result-nonzero s)

overrun-nonzero : pos 124 ≢ pos 0
overrun-nonzero h = ground arith

-- A process that was allowed its time and exited with code 0, no stop being set at the return.
pub record Succeeded (p : Process) (s' : State) : Type 0 where
  pub pid : ℕ
  pub stdout : String
  pub stderr : String
  pub process : p ≡ exited pid (pos 0) stdout stderr
  pub running : s'.stop ≡ false

attend-Succeeded :
    (component : String) (p : Process) (o : Others) (s : State)
    → (attend component p o s).0.returncode ≡ pos 0
    → Succeeded p (attend component p o s).1
unfolding attend
attend-Succeeded component (not_started text) o s h = cc
attend-Succeeded component (exited pid code out text) o s h =
    let (running, zero_code) = result_of-zero code out text _ h in
    record {
      pid = pid;
      stdout = out;
      stderr = text;
      process = rw zero_code refl;
      running = running;
    }
attend-Succeeded component (overran pid reason out text) o s h =
    absurd (overrun-nonzero (result_of-zero (pos 124) out text _ h).1)

-- The first block allows a run only on an active collection without a stop and before its deadline.
begin-allowed :
    (now : ℕ) (component : String) (timeout : ℕ) (s : State) (effective : ℕ)
    → (begin now component timeout s).0 ≡ allowed effective
    → (s.active ≡ true)
      × (s.stop ≡ false)
      × (now < s.deadline)
      × (effective ≡ max 50 (min timeout (s.deadline - now)))
unfolding begin
begin-allowed now component timeout s effective h = ground arith

begin-stopped :
    (now : ℕ) (component : String) (timeout : ℕ) (s : State) (c : Completed)
    → (begin now component timeout s).0 ≡ stopped c
    → c.returncode ≢ pos 0
unfolding begin stopped_result
begin-stopped now component timeout s c h zero_code = ground arith

returned_inj :
    {a b : Completed} {s t : State}
    → ◌≡◌ {A = Outcome × State} (returned a, s) (returned b, t)
    → (a ≡ b) × (s ≡ t)
returned_inj h = (cc, cc)

entered :
    (now : ℕ) (component : String) (timeout : ℕ) (process : ℕ → Process) (o : Others)
    (s t s' : State) (c : Completed) (entry : Entry)
    → (begin now component timeout s).0 ≡ entry
    → run_from component process o entry t ≡ (returned c, s')
    → c.returncode ≡ pos 0
    → (s.active ≡ true)
      × (s.stop ≡ false)
      × (now < s.deadline)
      × Succeeded (process (max 50 (min timeout (s.deadline - now)))) s'
entered now component timeout process o s t s' c (refused e) b h zero_code = cc
entered now component timeout process o s t s' c (stopped c') b h zero_code = absurd (
    begin-stopped now component timeout s c' b
      (ap (λ (x : Completed). x.returncode) (returned_inj h).0 ∙ zero_code))
entered now component timeout process o s t s' c (allowed effective) b h zero_code =
    let (active, free, early, e) = begin-allowed now component timeout s effective b in
    let (same, after) = returned_inj h in
    let r =
      attend-Succeeded component (process effective) o t
        (ap (λ (x : Completed). x.returncode) same ∙ zero_code) in
    (
      active,
      free,
      early,
      subst (λ n. Succeeded (process n) s') e (subst (Succeeded (process effective)) after r),
    )

-- A run that returns the code 0 began on an active collection that had no stop and was before its
-- deadline, its process exited with the code 0 within the time left to it, and the collection was
-- not stopped by anyone when the run returned, whatever other threads did in between.
pub run-Succeeded :
    (now : ℕ) (component : String) (timeout : ℕ) (process : ℕ → Process) (o : Others) (s s' : State)
    (c : Completed)
    → run now component timeout process o s ≡ (returned c, s')
    → c.returncode ≡ pos 0
    → (s.active ≡ true)
      × (s.stop ≡ false)
      × (now < s.deadline)
      × Succeeded (process (max 50 (min timeout (s.deadline - now)))) s'
unfolding run
run-Succeeded now component timeout process o s s' c h zero_code =
    let entry = begin now component timeout s in
    entered now component timeout process o s entry.1 s' c entry.0 refl h zero_code

pub stop_ne : {b : Bool} → b ≡ true → b ≡ false → ⊥
stop_ne p q = cc

pub cancel-stop : (reason : String) (s : State) → s.active ≡ true → (cancel reason s).1.stop ≡ true
unfolding cancel mark_first mark_stop
cancel-stop reason s h = ground arith

-- After a cancel of an active collection and any events of any threads without a start, the first
-- block of `run` allows no run: a run that begins then launches no process.
pub cancel-begin :
    (reason : String) (es : List Event) (now : ℕ) (component : String) (timeout : ℕ) (s : State)
    (effective : ℕ)
    → s.active ≡ true
    → any is_start es ≡ false
    → (begin now component timeout (steps es (cancel reason s).1)).0 ≢ allowed effective
cancel-begin reason es now component timeout s effective active others h =
    let t = (cancel reason s).1 in
    let marked = cancel-stop reason s active in
    let kept = steps-same es t others marked in
    let (_, free, _, _) = begin-allowed now component timeout (steps es t) effective h in
    absurd (stop_ne (kept.stop ∙ marked) free)

finish_kind :
    (now : ℕ) (status : String) (s : State)
    → s.active ≡ true
    → IsKind s.stop_kind
    → s.progress ≤ 99
    → ((finish now status s).status ≡ s.stop_kind) × ((finish now status s).progress ≤ 99)
unfolding finish
finish_kind now status s active kind below = elim kind [
  | inl e ↦ rw (active, e) (refl, below)
  | inr e ↦ rw (active, e) (refl, below)
]

-- After any events of any threads from a new supervisor: an active collection that is stopped
-- finishes with the kind of its stop as status and a progress of at most 99, whatever status
-- `finish` is given.
pub finish-stopped :
    (es : List Event) (now : ℕ) (status : String)
    → (steps es new_supervisor).active ≡ true
    → (steps es new_supervisor).stop ≡ true
    → ((finish now status (steps es new_supervisor)).status ≡ (steps es new_supervisor).stop_kind)
      × ((finish now status (steps es new_supervisor)).progress ≤ 99)
finish-stopped es now status active marked =
    let i = new_supervisor-steps es in
    finish_kind now status (steps es new_supervisor) active (i.kind marked) (i.below active)
