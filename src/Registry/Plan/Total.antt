-- ===== src/Registry/Plan/Total.antt =====
-- `add_dependencies` ends: its fuel is enough, every id that it looks up has an entry, and its
-- test for a cycle never fires. So its errors are those about one dependency.
use k8s_lab_vmware.Prelude.{
  ℕ, ◌<◌, zero, suc, String, List, [], ◌∷◌, ◌++◌, ◌≡◌, false, some, mem, Dict, lookup, arith,
  Bool-cases, inl, inr, subst, sym, some_inj, ◌∙◌,
}
use k8s_lab_vmware.Prelude.Result.{Result, ok, err, ◌>>=◌}
use k8s_lab_vmware.Registry.{Collector, Error}
use k8s_lab_vmware.Registry.Plan.{add_each, add_dependencies, add_all}
use k8s_lab_vmware.Registry.Plan.Names.{
  In, Sub, mem_self, mem_later, mem-cons_cases, missing, missing_anti, missing-cons, not-mem-nil,
  mem-nil, Sub-append_one, not-mem_of_Sub,
}
use k8s_lab_vmware.Registry.Plan.Dependencies.{
  OnDependency, Depends, Grown, Grown-refl, Grown-trans, Grown-cons, Outcome, Done,
}

module _ (channel exclude : List String) (entries : Dict Collector) where
  -- The recursive call behaves on every set that holds `s`.
  abbrev Calls : (String → List String → Result Error (List String)) → List String → Type 0
  Calls recur s =
      (d : String) (t : List String)
      → Sub s t
      → In d channel
      → mem d t ≡ false
      → Outcome channel exclude entries d (d ∷ t) (recur d (d ∷ t))

  abbrev EachOutcome : List String → List String → Result Error (List String) → Type 0
  EachOutcome ds s (ok t) = Grown channel exclude entries s t × Sub ds t
  EachOutcome ds s (err e) = OnDependency channel exclude entries e

  module _ (recur : String → List String → Result Error (List String)) (id : String) where
    -- One more dependency `d`, which is in the set `t` after its own step.
    each-cons :
        (d : String) (ds s t : List String) (r : Result Error (List String))
        → Grown channel exclude entries s t
        → In d t
        → EachOutcome ds t r
        → EachOutcome (d ∷ ds) s r
    each-cons d ds s t (ok u) g here (h, all) = (
      Grown-trans channel exclude entries g h,
      λ x p. elim (mem-cons_cases x d ds p) [
        | inl e ↦ subst (λ z. In z u) (sym e) (h.grows d here)
        | inr q ↦ all x q
      ],
    )
    each-cons d ds s t (err e) g here h = h

    -- The call for a new `d`, and the loop over the other dependencies after it.
    each-call :
        (d : String) (ds s : List String) (r : Result Error (List String))
        → In id s
        → Depends channel exclude entries id d
        → In d channel
        → mem d exclude ≡ false
        → Outcome channel exclude entries d (d ∷ s) r
        → ((t : List String) → Sub s t → EachOutcome ds t (add_each channel exclude recur id ds t))
        → EachOutcome (d ∷ ds) s (r >>= λ t. add_each channel exclude recur id ds t)
    each-call d ds s (err e) old dep here kept h next = h
    each-call d ds s (ok t) old dep here kept h next =
        let g = Grown-cons channel exclude entries id old dep here kept h.0 h.1 in
        each-cons d ds s t (add_each channel exclude recur id ds t) g (h.0.grows d (mem_self d s))
          (next t g.grows)

    each-Outcome :
        (ds s : List String)
        → In id s
        → ((d : String) → In d ds → Depends channel exclude entries id d)
        → Calls recur s
        → EachOutcome ds s (add_each channel exclude recur id ds s)
    unfolding add_each
    each-Outcome [] s old deps calls =
        (Grown-refl channel exclude entries s, λ x p. absurd (not-mem-nil x p))
    each-Outcome (d ∷ ds) s old deps calls =
        let next = λ (t : List String) (p : Sub s t).
          each-Outcome ds t (p id old) (λ e q. deps e (mem_later e d ds q))
            (λ e u q. calls e u (λ x r. q x (p x r))) in
        elim (Bool-cases (mem d channel)) [
          | inr absent ↦ rw absent (deps d (mem_self d ds), absent)
          | inl here ↦ elim (Bool-cases (mem d exclude)) [
            | inl out ↦ rw (here, out) (deps d (mem_self d ds), here, out)
            | inr kept ↦ elim (Bool-cases (mem d s)) [
              | inl selected ↦
                  rw (here, kept, selected)
                    (each-cons d ds s s (add_each channel exclude recur id ds s)
                      (Grown-refl channel exclude entries s) selected (next s (λ x p. p)))
              | inr new ↦
                  rw (here, kept, new)
                    (each-call d ds s (recur d (d ∷ s)) old (deps d (mem_self d ds)) here kept
                      (calls d s (λ x p. p) here new) next)
            ]
          ]
        ]

  close :
      (id : String) (c : Collector) (s : List String)
      → lookup id entries ≡ some c
      → (r : Result Error (List String)) → EachOutcome c.dependencies s r
      → Outcome channel exclude entries id s r
  close id c s found (err e) h = h
  close id c s found (ok t) (g, all) = (
    g,
    λ d (c', found', p). all d (subst (λ z. In d z.dependencies) (some_inj (sym found' ∙ found)) p),
  )

  -- A call whose trail and id are selected, with fuel for the ids that are not selected yet.
  pub add_dependencies-Outcome :
      (fuel : ℕ) (id : String) (trail s : List String)
      → ((x : String) → In x channel → (c : Collector) × (lookup x entries ≡ some c))
      → (c : Collector) → lookup id entries ≡ some c
      → mem id trail ≡ false
      → In id s
      → Sub trail s
      → missing channel s < fuel
      → Outcome channel exclude entries id s
          (add_dependencies channel exclude entries fuel id trail s)
  unfolding add_dependencies
  add_dependencies-Outcome zero id trail s known c found new old sub room = absurd (omega arith)
  add_dependencies-Outcome (suc fuel) id trail s known c found new old sub room =
      let recur = λ (d : String) (t : List String).
        add_dependencies channel exclude entries fuel d (trail ++ id ∷ []) t in
      let below = λ (t : List String) (p : Sub s t) (x : String) (q : In x (trail ++ id ∷ [])).
        p x (Sub-append_one trail s id sub old x q) in
      rw (new, found)
        (close id c s found (add_each channel exclude recur id c.dependencies s) (
          each-Outcome recur id c.dependencies s old (λ d p. (c, found, p))
            (λ d t p here fresh.
              add_dependencies-Outcome fuel d (trail ++ id ∷ []) (d ∷ t) known (known d here).0
                (known d here).1 (not-mem_of_Sub d (trail ++ id ∷ []) t (below t p) fresh)
                (mem_self d t) (λ x q. mem_later x d t (below t p x q))
                (omega (arith, missing-cons d channel t here fresh, missing_anti channel s t p)))))

  -- The loop over the selection.
  abbrev pub AllOutcome : List String → List String → Result Error (List String) → Type 0
  AllOutcome l s (ok t) =
      Grown channel exclude entries s t
      × ((id : String) → In id l → Done channel exclude entries id t)
  AllOutcome l s (err e) = OnDependency channel exclude entries e

  all-cons :
      (id : String) (l s t : List String) (r : Result Error (List String))
      → Grown channel exclude entries s t
      → Done channel exclude entries id t
      → AllOutcome l t r
      → AllOutcome (id ∷ l) s r
  all-cons id l s t (err e) g done h = h
  all-cons id l s t (ok u) g done (h, all) = (
    Grown-trans channel exclude entries g h,
    λ x p. elim (mem-cons_cases x id l p) [
      | inl e ↦ subst (λ z. Done channel exclude entries z u) (sym e) (λ d q. h.grows d (done d q))
      | inr q ↦ all x q
    ],
  )

  all-call :
      (fuel : ℕ) (id : String) (l s : List String) (r : Result Error (List String))
      → Outcome channel exclude entries id s r
      → ((t : List String) → Sub s t → AllOutcome l t (add_all channel exclude entries fuel l t))
      → AllOutcome (id ∷ l) s (r >>= λ t. add_all channel exclude entries fuel l t)
  all-call fuel id l s (err e) h next = h
  all-call fuel id l s (ok t) h next =
      all-cons id l s t (add_all channel exclude entries fuel l t) h.0 h.1 (next t h.0.grows)

  pub add_all-Outcome :
      (fuel : ℕ) (l s : List String)
      → ((x : String) → In x channel → (c : Collector) × (lookup x entries ≡ some c))
      → Sub l s
      → Sub l channel
      → missing channel s < fuel
      → AllOutcome l s (add_all channel exclude entries fuel l s)
  unfolding add_all
  add_all-Outcome fuel [] s known sub here room =
      (Grown-refl channel exclude entries s, λ id p. absurd (not-mem-nil id p))
  add_all-Outcome fuel (id ∷ l) s known sub here room =
      let c = known id (here id (mem_self id l)) in
      all-call fuel id l s (add_dependencies channel exclude entries fuel id [] s)
        (add_dependencies-Outcome fuel id [] s known c.0 c.1 (mem-nil id) (sub id (mem_self id l))
          (λ x p. absurd (not-mem-nil x p)) room)
        (λ t p.
          add_all-Outcome fuel l t known (λ x q. p x (sub x (mem_later x id l q)))
            (λ x q. here x (mem_later x id l q)) (omega (arith, missing_anti channel s t p)))
