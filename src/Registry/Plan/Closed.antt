-- ===== src/Registry/Plan/Closed.antt =====
-- The selection that `build_plan` makes: the guards and the loop over the dependencies together.
use k8s_lab_vmware.Prelude.{
  ◌<◌, suc, String, List, ◌++◌, ◌≡◌, true, false, not, ◌&&◌, ◌||◌, some, if◌then◌else◌, mem,
  mem-append, minus, meet, mem-minus, mem-meet, minus-empty, meet-empty, is_empty, keep, length,
  lookup, arith, Bool-cases, inl, inr, count-le, length-keep-le, length-map, sym, ◌∙◌,
}
use k8s_lab_vmware.Prelude.Result.{Result, ok, err}
use k8s_lab_vmware.Registry.{
  Collector, Error, unavailable_dependency, excluded_dependency, unknown_collectors, unavailable,
  forbidden, ids,
}
use k8s_lab_vmware.Registry.Plan.{
  Request, entries_of, offered, channel_ids, required_ids, initial, add_all, select,
}
use k8s_lab_vmware.Registry.Plan.Names.{
  In, Sub, missing, mem-ids-keep, ids-keep_mono, lookup-entries_of,
}
use k8s_lab_vmware.Registry.Plan.Dependencies.{Depends, Grown, Done}
use k8s_lab_vmware.Registry.Plan.Total.{AllOutcome, add_all-Outcome}

pub required-channel :
    (q : Request) (cs : List Collector) → Sub (required_ids q cs) (channel_ids q cs)
unfolding required_ids channel_ids
required-channel q cs x h =
    ids-keep_mono x (λ c. c.required && offered q c) (offered q) cs (λ c p. ground arith) h

pub mem-initial :
    (q : Request) (cs : List Collector) (x : String)
    → mem x (initial q cs) ≡ (
        (if is_empty q.include
          then mem x (channel_ids q cs)
          else mem x (required_ids q cs) || (mem x q.include && mem x (channel_ids q cs)))
        && not (mem x q.exclude))
unfolding initial
mem-initial q cs x = ground (
  arith,
  mem-minus x
      (if is_empty q.include
        then channel_ids q cs
        else required_ids q cs ++ meet q.include (channel_ids q cs))
      q.exclude,
  mem-append x (required_ids q cs) (meet q.include (channel_ids q cs)),
  mem-meet x q.include (channel_ids q cs),
)

pub initial-channel : (q : Request) (cs : List Collector) → Sub (initial q cs) (channel_ids q cs)
initial-channel q cs x h = ground (arith, mem-initial q cs x, required-channel q cs x)

known_channel :
    (q : Request) (cs : List Collector) (x : String)
    → In x (channel_ids q cs)
    → (c : Collector) × (lookup x (entries_of cs) ≡ some c)
unfolding channel_ids
known_channel q cs x h = lookup-entries_of x cs (mem-ids-keep x (offered q) cs h)

enough_fuel :
    (q : Request) (cs : List Collector) (s : List String)
    → missing (channel_ids q cs) s < suc (length cs)
unfolding channel_ids
enough_fuel q cs s = omega (
  arith,
  count-le (λ x. not (mem x s)) (ids (keep (offered q) cs)),
  length-map (λ (c : Collector). c.id) (keep (offered q) cs),
  length-keep-le (offered q) cs,
)

-- Why a request is refused. No other error is raised.
abbrev pub Refused : List Collector → Request → Error → Type 0
Refused registry q (unknown_collectors xs) =
    (is_empty xs ≡ false)
    × ((x : String) → In x xs → In x (q.include ++ q.exclude) × (mem x (ids registry) ≡ false))
Refused registry q (unavailable xs) =
    (is_empty xs ≡ false)
    × ((x : String) → In x xs → In x q.include × (mem x (channel_ids q registry) ≡ false))
Refused registry q (forbidden xs) =
    (is_empty xs ≡ false)
    × ((x : String) → In x xs → In x (required_ids q registry) × In x q.exclude)
Refused registry q (unavailable_dependency d id) =
    Depends (channel_ids q registry) q.exclude (entries_of registry) id d
    × (mem d (channel_ids q registry) ≡ false)
Refused registry q (excluded_dependency d id) =
    Depends (channel_ids q registry) q.exclude (entries_of registry) id d
    × In d (channel_ids q registry)
    × In d q.exclude
Refused registry q _ = ⊥

module _ (order : List String → List String)
    (same : (s : List String) (x : String) → mem x (order s) ≡ mem x s) (registry : List Collector)
    (q : Request) where
  abbrev pub Ch : List String
  Ch = channel_ids q registry

  -- The set that the dependencies are added to ends as `t`, and the guards let the request pass.
  pub record Selected (t : List String) : Type 0 where
    pub grown : Grown Ch q.exclude (entries_of registry) (initial q registry) t
    pub done :
        (id : String) → In id (initial q registry) → Done Ch q.exclude (entries_of registry) id t
    pub included : Sub q.include Ch
    pub kept : (x : String) → In x (required_ids q registry) → mem x q.exclude ≡ false

  abbrev pub SelectOutcome : Result Error (List String) → Type 0
  SelectOutcome (ok t) = Selected t
  SelectOutcome (err e) = Refused registry q e

  loop-Outcome :
      (r : Result Error (List String))
      → is_empty (minus q.include Ch) ≡ true
      → is_empty (meet (required_ids q registry) q.exclude) ≡ true
      → AllOutcome Ch q.exclude
          (entries_of registry)
          (order (initial q registry))
          (initial q registry)
          r
      → SelectOutcome r
  loop-Outcome (ok t) inc req h = record {
    grown = h.0;
    done = λ id p. h.1 id (same (initial q registry) id ∙ p);
    included = λ x p. minus-empty q.include Ch x inc p;
    kept = λ x p. meet-empty (required_ids q registry) q.exclude x req p;
  }
  loop-Outcome (err (unavailable_dependency d id)) inc req h = h
  loop-Outcome (err (excluded_dependency d id)) inc req h = h
  loop-Outcome (err _) inc req h = absurd h

  pub select-Outcome : SelectOutcome (select order registry q)
  unfolding select
  select-Outcome = elim (Bool-cases (is_empty (minus (q.include ++ q.exclude) (ids registry)))) [
    | inr u ↦ rw u (u, λ x p. ground (arith, mem-minus x (q.include ++ q.exclude) (ids registry)))
    | inl u ↦ elim (Bool-cases (is_empty (minus q.include Ch))) [
      | inr m ↦ rw (u, m) (m, λ x p. ground (arith, mem-minus x q.include Ch))
      | inl m ↦ elim (Bool-cases (is_empty (meet (required_ids q registry) q.exclude))) [
        | inr f ↦
            rw (u, m, f) (f, λ x p. ground (arith, mem-meet x (required_ids q registry) q.exclude))
        | inl f ↦
            rw (u, m, f)
              (loop-Outcome
                (add_all Ch q.exclude (entries_of registry) (suc (length registry))
                  (order (initial q registry)) (initial q registry))
                m f
                (add_all-Outcome Ch q.exclude (entries_of registry) (suc (length registry))
                  (order (initial q registry)) (initial q registry) (known_channel q registry)
                  (λ x p. sym (same (initial q registry) x) ∙ p)
                  (λ x p. initial-channel q registry x (sym (same (initial q registry) x) ∙ p))
                  (enough_fuel q registry (initial q registry))))
      ]
    ]
  ]
