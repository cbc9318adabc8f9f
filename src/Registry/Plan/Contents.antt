-- ===== src/Registry/Plan/Contents.antt =====
-- What `build_plan` returns and raises.
use k8s_lab_vmware.Prelude.{
  String, List, [], ◌∷◌, map, ◌≡◌, ◌↔◌, refl, Bool, false, ◌&&◌, some, mem, keep, lookup,
  lookup-insert, insert, arith, eq_iff, eq_refl, Bool-cases, inl, inr, subst, ◌∙◌, All, Dict,
}
use k8s_lab_vmware.Prelude.Result.{Result, ok, err, ok_inj, err_inj, ◌>>=◌}
use k8s_lab_vmware.Registry.{Collector, PlanItem, Error, Unique, ids}
use k8s_lab_vmware.Registry.Plan.{
  Request, entries_from, entries_of, offered, channel_ids, required_ids, initial, plan_item, select,
  build_plan,
}
use k8s_lab_vmware.Registry.Plan.Names.{In, Sub, mem-ids-keep}
use k8s_lab_vmware.Registry.Plan.Dependencies.{Needs, root, dependency}
use k8s_lab_vmware.Registry.Plan.Closed.{
  Refused, Selected, SelectOutcome, select-Outcome, initial-channel, mem-initial, required-channel,
}

abbrev pub plan_ids : List PlanItem → List String
plan_ids plan = map (λ p. p.id) plan

plan_ids-kept :
    (x : String) (t : List String) (cs : List Collector)
    → mem x (plan_ids (map plan_item (keep (λ c. mem c.id t) cs))) ≡ (mem x (ids cs) && mem x t)
unfolding plan_item mem
plan_ids-kept x t [] = refl
plan_ids-kept x t (c ∷ cs) = ground (arith, plan_ids-kept x t cs, eq_iff x c.id)

-- The entry found under an id is the last one written.
lookup-entries_from_other :
    (x : String) (d : Dict Collector) (cs : List Collector)
    → mem x (ids cs) ≡ false
    → lookup x (entries_from d cs) ≡ lookup x d
unfolding entries_from mem
lookup-entries_from_other x d [] h = refl
lookup-entries_from_other x d (c ∷ cs) h = ground (
  arith,
  lookup-entries_from_other x (insert c.id c d) cs,
  lookup-insert c.id x c d,
  eq_iff c.id x,
  eq_iff x c.id,
)

-- In a registry with unique ids, each kept entry is found under its own id.
lookup-Unique :
    (p : Collector → Bool) (cs : List Collector) (d : Dict Collector)
    → Unique cs
    → All (λ c. lookup c.id (entries_from d cs) ≡ some c) (keep p cs)
unfolding entries_from
lookup-Unique p [] d u = tt
lookup-Unique p (c ∷ cs) d u =
    let rest = lookup-Unique p cs (insert c.id c d) u.1 in
    let own =
      lookup-entries_from_other c.id (insert c.id c d) cs u.0 ∙ lookup-insert c.id c.id c d in
    elim (Bool-cases (p c)) [ inl e ↦ rw e (own ∙ rw eq_refl refl, rest) | inr e ↦ rw e rest ]

module _ (order : List String → List String)
    (same : (s : List String) (x : String) → mem x (order s) ≡ mem x s) (registry : List Collector)
    (q : Request) where
  abbrev pub NeededBy : String → Type 0
  NeededBy = Needs (channel_ids q registry) q.exclude (entries_of registry) (initial q registry)

  -- The plan of a selection.
  abbrev plan_of : List String → List PlanItem
  plan_of t = map plan_item (keep (λ c. mem c.id t) registry)

  Selected-known :
      (t : List String)
      → Selected order same registry q t
      → (x : String) → In x t
      → In x (channel_ids q registry) × In x (ids registry)
  unfolding channel_ids
  Selected-known t h x p =
      let here : In x (channel_ids q registry) = elim (h.grown.inside x p) [
        | inl s ↦ initial-channel q registry x s
        | inr c ↦ c.0
      ] in
      (here, mem-ids-keep x (offered q) registry here)

  needed-Selected :
      (t : List String) → Selected order same registry q t → {x : String} → NeededBy x → In x t
  needed-Selected t h (root {x = x} p) = h.grown.grows x p
  needed-Selected t h (dependency {x = x} {d = d} n dep) =
      elim (h.grown.closed x d (needed-Selected t h n) dep) [ inl s ↦ h.done x s d dep | inr p ↦ p ]

  Selected-iff :
      (t : List String)
      → Selected order same registry q t
      → (x : String) → In x (plan_ids (plan_of t)) ↔ NeededBy x
  Selected-iff t h x = (
    λ p.
        h.grown.needed (initial q registry) (λ y r. root r) x
          (ground (arith, plan_ids-kept x t registry)),
    λ n.
        let p = needed-Selected t h n in
        rw (plan_ids-kept x t registry, (Selected-known t h x p).1, p),
  )

  ok-Selected :
      (r : Result Error (List String)) (plan : List PlanItem)
      → SelectOutcome order same registry q r
      → (r >>= λ t. ok (plan_of t)) ≡ ok plan
      → (t : List String) × Selected order same registry q t × (plan_of t ≡ plan)
  ok-Selected (ok t) plan s h = (t, s, ok_inj h)
  ok-Selected (err e) plan s h = cc

  err-Refused :
      (r : Result Error (List String)) (e : Error)
      → SelectOutcome order same registry q r
      → (r >>= λ t. ok (plan_of t)) ≡ err e
      → Refused registry q e
  err-Refused (ok t) e s h = cc
  err-Refused (err e') e s h = subst (Refused registry q) (err_inj h) s

  -- Inversion of a call that returned.
  build_plan-eq-ok :
      (plan : List PlanItem)
      → build_plan order registry q ≡ ok plan
      → (t : List String) × Selected order same registry q t × (plan_of t ≡ plan)
  unfolding build_plan
  build_plan-eq-ok plan h =
      ok-Selected (select order registry q) plan (select-Outcome order same registry q) h

  -- Whatever the registry and the request, where `order` lists the elements of a set in any order:
  -- a plan that `build_plan` returns holds exactly the ids that the request needs, which are its
  -- initial selection and, directly or through others, their dependencies.
  pub build_plan-Needs :
      (plan : List PlanItem)
      → build_plan order registry q ≡ ok plan
      → (x : String) → In x (plan_ids plan) ↔ NeededBy x
  build_plan-Needs plan h =
      let (t, s, e) = build_plan-eq-ok plan h in
      subst (λ p. (x : String) → In x (plan_ids p) ↔ NeededBy x) e (Selected-iff t s)

  -- Whatever the registry and the request, where `order` lists the elements of a set in any order:
  -- `build_plan` ends, and it raises only for unknown collectors, collectors that the channel or
  -- the features do not offer, required collectors that are excluded, and dependencies that are
  -- not offered or excluded, each of which is then the case. In particular it raises no
  -- dependency cycle and no `KeyError`.
  pub build_plan-Refused : (e : Error) → build_plan order registry q ≡ err e → Refused registry q e
  unfolding build_plan
  build_plan-Refused e h =
      err-Refused (select order registry q) e (select-Outcome order same registry q) h

  -- What the guards promise of a selection.
  abbrev Respects : List String → Type 0
  Respects xs =
      ((x : String) → In x xs → In x (channel_ids q registry) × (mem x q.exclude ≡ false))
      × Sub (required_ids q registry) xs
      × ((x : String) → In x q.include → mem x q.exclude ≡ false → In x xs)

  -- What is selected and offered is in the plan.
  initial_planned :
      (t : List String)
      → Selected order same registry q t
      → (x : String) → In x (initial q registry)
      → In x (plan_ids (plan_of t))
  initial_planned t h x p = (Selected-iff t h x).1 (root p)

  Selected-Respects :
      (t : List String) → Selected order same registry q t → Respects (plan_ids (plan_of t))
  Selected-Respects t h = (
    λ x p.
        let n = needed-Selected t h ((Selected-iff t h x).0 p) in
        (
          (Selected-known t h x n).0,
          elim (h.grown.inside x n) [
            | inl s ↦ ground (arith, mem-initial q registry x)
            | inr c ↦ c.1
          ],
        ),
    λ x p.
        initial_planned t h x
          (ground (arith, mem-initial q registry x, h.kept x p, required-channel q registry x p)),
    λ x i k. initial_planned t h x (ground (arith, mem-initial q registry x, h.included x i)),
  )

  -- Whatever the registry and the request, where `order` lists the elements of a set in any order:
  -- each id of a returned plan is offered by the channel and the features and is not excluded,
  -- every required collector that is offered is in the plan, and so is every included collector
  -- that is not excluded too.
  pub build_plan-Respects :
      (plan : List PlanItem) → build_plan order registry q ≡ ok plan → Respects (plan_ids plan)
  build_plan-Respects plan h =
      let (t, s, e) = build_plan-eq-ok plan h in
      subst (λ p. Respects (plan_ids p)) e (Selected-Respects t s)

  closed_item :
      (t : List String)
      → Selected order same registry q t
      → (c : Collector) → lookup c.id (entries_of registry) ≡ some c
      → In c.id t
      → Sub c.dependencies (plan_ids (plan_of t))
  closed_item t h c found p d dep =
      (Selected-iff t h d).1
        (dependency (h.grown.needed (initial q registry) (λ y r. root r) c.id p) (c, found, dep))

  abbrev DependenciesIn : List String → List PlanItem → Type 0
  DependenciesIn xs items = All (λ p. Sub p.dependencies xs) items

  closed_items :
      (t : List String)
      → Selected order same registry q t
      → (cs : List Collector)
      → All (λ c. lookup c.id (entries_of registry) ≡ some c) (keep (λ c. mem c.id t) cs)
      → DependenciesIn (plan_ids (plan_of t)) (map plan_item (keep (λ c. mem c.id t) cs))
  unfolding plan_item
  closed_items t h [] = λ found. tt
  closed_items t h (c ∷ cs) = elim (Bool-cases (mem c.id t)) [
    | inl e ↦ rw e (λ found. (closed_item t h c found.0 e, closed_items t h cs found.1))
    | inr e ↦ rw e (closed_items t h cs)
  ]

  -- For a registry with unique ids and any request, where `order` lists the elements of a set in
  -- any order: the dependencies of every item of a returned plan are ids of the plan.
  pub build_plan-closed :
      Unique registry
      → (plan : List PlanItem) → build_plan order registry q ≡ ok plan
      → DependenciesIn (plan_ids plan) plan
  build_plan-closed unique plan h =
      let (t, s, e) = build_plan-eq-ok plan h in
      subst (λ p. DependenciesIn (plan_ids p) p) e
        (closed_items t s registry (lookup-Unique (λ c. mem c.id t) registry [] unique))
