-- ===== src/Supervisor/Invariant.antt =====
-- What holds of the supervisor after any events.
use k8s_lab_vmware.Prelude.{
  ℕ, ◌≤◌, String, List, [], ◌∷◌, ◌≡◌, ◌⊎◌, refl, ◌∙◌, Bool, true, false, not, if◌then◌else◌,
  or_text, ◌==◌, arith, inl, inr, Dict, either_branch, mem, any, ◌||◌, ◌++◌, Option, is_empty, leb,
}
use k8s_lab_vmware.Supervisor.{
  State, Entry, new_supervisor, start, mark_stop, mark_first, cancel, begin, launched, expired,
  settled, progress_of, finish,
}
use k8s_lab_vmware.Supervisor.Events.{
  Event, starts, cancels, begins, launches, expires, settles, finishes, step, steps, is_start,
  kept_on_error,
}

abbrev pub IsKind : String → Type 0
IsKind kind = (kind ≡ "CANCELLED") ⊎ (kind ≡ "TIMED_OUT")

-- A stop has one of the two kinds; while a collection is active its status is that kind or else RUNNING, and its
-- progress is below 100.
pub record IsSound (s : State) : Type 0 where
  pub kind : s.stop ≡ true → IsKind s.stop_kind
  pub fresh : s.stop ≡ false → s.stop_kind ≡ ""
  pub flag : s.cancel_requested ≡ (s.stop_kind == "CANCELLED")
  pub status : s.active ≡ true → s.status ≡ or_text s.stop_kind "RUNNING"
  pub below : s.active ≡ true → s.progress ≤ 99
  pub bound : s.progress ≤ 100

new_supervisor-IsSound : IsSound new_supervisor
new_supervisor-IsSound = record {
  kind = λ h. cc;
  fresh = λ h. refl;
  flag = refl;
  status = λ h. cc;
  below = λ h. omega arith;
  bound = omega arith;
}

mark_stop-IsSound :
    (kind reason : String) (s : State) → IsKind kind → IsSound s → IsSound (mark_stop kind reason s)
unfolding mark_stop
mark_stop-IsSound kind reason s named i = record {
  kind = λ h. named;
  fresh = λ h. cc;
  flag = refl;
  status = λ h. elim named [ inl e ↦ rw e refl | inr e ↦ rw e refl ];
  below = i.below;
  bound = i.bound;
}

mark_first-IsSound :
    (kind reason : String) (s : State)
    → IsKind kind
    → IsSound s
    → IsSound (mark_first kind reason s)
unfolding mark_first
mark_first-IsSound kind reason s named i =
    either_branch IsSound s.stop (λ h. i) (λ h. mark_stop-IsSound kind reason s named i)

progress_of-below :
    (weights : Dict ℕ) (planned completed : List String)
    → progress_of weights planned completed ≤ 99
unfolding progress_of
progress_of-below weights planned completed = omega arith

neither : (a b : Bool) → (a || b) ≡ false → (a ≡ false) × (b ≡ false)
neither a b h = ground arith

pub step-IsSound : (e : Event) (s : State) → IsSound s → IsSound (step e s)
unfolding step start cancel begin launched expired settled finish
step-IsSound (starts now c n planned weights) s i =
    either_branch (λ r. IsSound (kept_on_error s r)) s.active (λ h. i)
      (λ h. record {
        kind = λ h. cc;
        fresh = λ h. refl;
        flag = refl;
        status = λ h. refl;
        below = λ h. omega arith;
        bound = omega arith;
      })
step-IsSound (cancels reason) s i =
    either_branch (λ (r : Bool × State × Option ℕ). IsSound r.1) s.active
      (λ h. mark_first-IsSound "CANCELLED" reason s (inl refl) i) (λ h. i)
step-IsSound (begins now c t) s i =
    either_branch (λ (r : Entry × State). IsSound r.1) (not s.active) (λ h. i)
      (λ h.
        either_branch (λ (r : Entry × State). IsSound r.1) s.stop (λ h. i)
          (λ h.
            either_branch (λ (r : Entry × State). IsSound r.1) (leb s.deadline now)
              (λ h. mark_stop-IsSound "TIMED_OUT" "collection time budget exhausted" s (inr refl) i)
              (λ h. record {
                kind = i.kind;
                fresh = i.fresh;
                flag = i.flag;
                status = i.status;
                below = i.below;
                bound = i.bound;
              })))
step-IsSound (launches pid) s i = record {
  kind = i.kind;
  fresh = i.fresh;
  flag = i.flag;
  status = i.status;
  below = i.below;
  bound = i.bound;
}
step-IsSound (expires reason) s i = mark_first-IsSound "TIMED_OUT" reason s (inr refl) i
step-IsSound (settles c pid n) s i =
    let completed = if mem c s.completed then s.completed else s.completed ++ c ∷ [] in
    let below = progress_of-below s.weights s.planned completed in
    record {
      kind = i.kind;
      fresh = i.fresh;
      flag = i.flag;
      status = i.status;
      below = λ h. either_branch (λ n. n ≤ 99) (is_empty s.planned) (λ e. i.below h) (λ e. below);
      bound =
          either_branch (λ n. n ≤ 100) (is_empty s.planned) (λ e. i.bound)
            (λ e. omega (arith, below));
    }
step-IsSound (finishes now status) s i =
    either_branch IsSound s.active
      (λ h. record {
        kind = i.kind;
        fresh = i.fresh;
        flag = i.flag;
        status = λ h. cc;
        below = λ h. cc;
        bound =
            either_branch (λ n. n ≤ 100)
              (or_text s.stop_kind (or_text status "COMPLETED") == "COMPLETED") (λ e. omega arith)
              (λ e. i.bound);
      })
      (λ h. i)

steps-IsSound : (es : List Event) (s : State) → IsSound s → IsSound (steps es s)
unfolding steps
steps-IsSound [] s i = i
steps-IsSound (e ∷ es) s i = steps-IsSound es (step e s) (step-IsSound e s i)

-- After any events of any threads, in any order, from a new supervisor: a stop is CANCELLED or
-- TIMED_OUT, the cancel flag is set exactly for CANCELLED, an active collection has the status of its stop or else
-- RUNNING and a progress of at most 99, and no progress is above 100.
pub new_supervisor-steps : (es : List Event) → IsSound (steps es new_supervisor)
new_supervisor-steps es = steps-IsSound es new_supervisor new_supervisor-IsSound

-- The stop of the first state is that of the second.
pub record SameStop (s t : State) : Type 0 where
  pub stop : t.stop ≡ s.stop
  pub kind : t.stop_kind ≡ s.stop_kind
  pub reason : t.reason ≡ s.reason

same_stop : (s : State) → SameStop s s
same_stop s = record { stop = refl; kind = refl; reason = refl }

mark_first-same :
    (kind reason : String) (s : State) → s.stop ≡ true → SameStop s (mark_first kind reason s)
unfolding mark_first
mark_first-same kind reason s h = either_branch (SameStop s) s.stop (λ e. same_stop s) (λ e. cc)

step-same : (e : Event) (s : State) → is_start e ≡ false → s.stop ≡ true → SameStop s (step e s)
unfolding step cancel begin launched expired settled finish
step-same (starts now c n planned weights) s other h = cc
step-same (cancels reason) s other h =
    either_branch (λ (r : Bool × State × Option ℕ). SameStop s r.1) s.active
      (λ e. mark_first-same "CANCELLED" reason s h) (λ e. same_stop s)
step-same (begins now c t) s other h =
    either_branch (λ (r : Entry × State). SameStop s r.1) (not s.active) (λ e. same_stop s)
      (λ e.
        either_branch (λ (r : Entry × State). SameStop s r.1) s.stop (λ e. same_stop s) (λ e. cc))
step-same (launches pid) s other h = record { stop = refl; kind = refl; reason = refl }
step-same (expires reason) s other h = mark_first-same "TIMED_OUT" reason s h
step-same (settles c pid n) s other h = record { stop = refl; kind = refl; reason = refl }
step-same (finishes now status) s other h =
    either_branch (SameStop s) s.active (λ e. record { stop = refl; kind = refl; reason = refl })
      (λ e. same_stop s)

-- Once a collection is stopped, no event of any thread but a start changes the kind and the reason
-- of the stop: the first stop wins.
pub steps-same :
    (es : List Event) (s : State)
    → any is_start es ≡ false
    → s.stop ≡ true
    → SameStop s (steps es s)
unfolding steps
steps-same [] s other h = same_stop s
steps-same (e ∷ es) s other h =
    let (one, others) = neither (is_start e) (any is_start es) other in
    let first = step-same e s one h in
    let rest = steps-same es (step e s) others (first.stop ∙ h) in
    record {
      stop = rest.stop ∙ first.stop;
      kind = rest.kind ∙ first.kind;
      reason = rest.reason ∙ first.reason;
    }
