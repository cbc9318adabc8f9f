-- ===== src/Registry/Progress/Bounds.antt =====
-- The progress figure: a percentage that follows the finished weight.
use k8s_lab_vmware.Prelude.{
  ℕ, ◌*◌, ◌+◌, ◌≤◌, ◌<◌, List, [], ◌∷◌, ◌≡◌, refl, ap, Bool, true, sum_by, keep, all, Dict, arith,
  lt→ltb,
}
use k8s_lab_vmware.Prelude.Rounding.{round_div, round_div_mono, round_div_near, round_div-mul}
use k8s_lab_vmware.Registry.{PlanItem}
use k8s_lab_vmware.Registry.Progress.{CollectorState, completed, calculate_progress}

abbrev weight_of : List PlanItem → ℕ
weight_of plan = sum_by (λ (i : PlanItem). i.weight) plan

weight_of-keep_mono :
    (p q : PlanItem → Bool) (plan : List PlanItem)
    → ((i : PlanItem) → p i ≡ true → q i ≡ true)
    → weight_of (keep p plan) ≤ weight_of (keep q plan)
weight_of-keep_mono p q [] h = omega arith
weight_of-keep_mono p q (i ∷ plan) h = ground (arith, weight_of-keep_mono p q plan h, h i)

weight_of-keep-le :
    (p : PlanItem → Bool) (plan : List PlanItem) → weight_of (keep p plan) ≤ weight_of plan
weight_of-keep-le p [] = omega arith
weight_of-keep-le p (i ∷ plan) = ground (arith, weight_of-keep-le p plan)

weight_of-keep-all :
    (p : PlanItem → Bool) (plan : List PlanItem)
    → all p plan ≡ true
    → weight_of (keep p plan) ≡ weight_of plan
weight_of-keep-all p [] h = refl
weight_of-keep-all p (i ∷ plan) h = ground (arith, weight_of-keep-all p plan)

-- The `min` of the source never cuts the percentage: it is at most 100 before.
round_div-done : (done total : ℕ) → 0 < total → done ≤ total → round_div (done * 100) total ≤ 100
round_div-done done total h le = omega (
  arith,
  round_div_mono (done * 100) (100 * total) total h (omega arith),
  round_div-mul 100 total h,
)

comm : (n : ℕ) → n * 100 ≡ 100 * n
comm n = omega arith

-- With a positive total weight, the progress is the rounded percentage.
calculate_progress_lem :
    (plan : List PlanItem) (collectors : Dict CollectorState)
    → 0 < weight_of plan
    → calculate_progress plan collectors
      ≡ round_div (weight_of (keep (completed collectors) plan) * 100) (weight_of plan)
unfolding calculate_progress
calculate_progress_lem plan collectors h = rw (lt→ltb 0 (weight_of plan) h) (
    omega (
      arith,
      round_div-done (weight_of (keep (completed collectors) plan)) (weight_of plan) h
          (weight_of-keep-le (completed collectors) plan),
    ))

-- For any two states of the collectors of one plan such that what is finished in the first is
-- finished in the second: the progress does not fall, and it is at most 100.
pub calculate_progress_mono :
    (plan : List PlanItem) (old new : Dict CollectorState)
    → ((i : PlanItem) → completed old i ≡ true → completed new i ≡ true)
    → (calculate_progress plan old ≤ calculate_progress plan new)
      × (calculate_progress plan new ≤ 100)
unfolding calculate_progress
calculate_progress_mono plan old new h = ground (
  arith,
  round_div_mono (weight_of (keep (completed old) plan) * 100)
      (weight_of (keep (completed new) plan) * 100) (weight_of plan),
  weight_of-keep_mono (completed old) (completed new) plan h,
)

-- For any plan of positive total weight: the progress is the finished share in percent, to the
-- nearest integer; it is 100 when every item is finished.
pub calculate_progress_near :
    (plan : List PlanItem) (collectors : Dict CollectorState)
    → 0 < weight_of plan
    → (2 * (weight_of (keep (completed collectors) plan) * 100)
        ≤ 2 * (calculate_progress plan collectors * weight_of plan) + weight_of plan)
      × (2 * (calculate_progress plan collectors * weight_of plan)
          ≤ 2 * (weight_of (keep (completed collectors) plan) * 100) + weight_of plan)
      × (all (completed collectors) plan ≡ true → calculate_progress plan collectors ≡ 100)
calculate_progress_near plan collectors h =
    let done = weight_of (keep (completed collectors) plan) in
    let near = round_div_near (done * 100) (weight_of plan) h in
    rw (calculate_progress_lem plan collectors h) (
      near.0,
      near.1,
      λ every. rw (weight_of-keep-all (completed collectors) plan every) (
          omega (
            arith,
            round_div-mul 100 (weight_of plan) h,
            ap (λ (t : ℕ). round_div t (weight_of plan)) (comm (weight_of plan)),
          )),
    )
