-- ===== src/Registry/Plan/Dependencies.antt =====
-- What one call of `add_dependencies` does to the set `selected`, and which errors it raises.
use k8s_lab_vmware.Prelude.{
  String, List, ◌∷◌, ◌≡◌, true, false, some, mem, Dict, lookup, subst, sym, inl, inr, ◌⊎◌,
}
use k8s_lab_vmware.Prelude.Result.{Result, ok, err}
use k8s_lab_vmware.Registry.{Collector, Error, unavailable_dependency, excluded_dependency}
use k8s_lab_vmware.Registry.Plan.Names.{In, Sub, mem_later, mem-cons_cases}

module _ (channel exclude : List String) (entries : Dict Collector) where
  -- `d` is a dependency of the entry of `x`.
  abbrev pub Depends : String → String → Type 0
  Depends x d = (c : Collector) × (lookup x entries ≡ some c) × In d c.dependencies

  -- The errors that a dependency may raise: it is not in the channel, or it is there and excluded. A
  -- cycle, an id with no entry and the model's own lack of fuel are not among them.
  abbrev pub OnDependency : Error → Type 0
  OnDependency (unavailable_dependency d id) = Depends id d × (mem d channel ≡ false)
  OnDependency (excluded_dependency d id) = Depends id d × In d channel × (mem d exclude ≡ true)
  OnDependency _ = ⊥

  -- The ids that a set needs, directly or through other dependencies.
  pub data Needs (start : List String) : String → Type 0 where
    root : {x : String} → In x start → Needs start x
    dependency : {x d : String} → Needs start x → Depends x d → Needs start d

  -- The set after the work is over: it has grown, by needed ids of the channel that are not
  -- excluded, and it has the dependencies of each new id.
  pub record Grown (s t : List String) : Type 0 where
    pub grows : Sub s t
    pub inside : (x : String) → In x t → In x s ⊎ (In x channel × (mem x exclude ≡ false))
    pub closed : (x d : String) → In x t → Depends x d → In x s ⊎ In d t
    pub needed :
        (start : List String)
        → ((x : String) → In x s → Needs start x)
        → (x : String) → In x t
        → Needs start x

  pub Grown-refl : (s : List String) → Grown s s
  Grown-refl s = record {
    grows = λ x h. h;
    inside = λ x h. inl h;
    closed = λ x d h p. inl h;
    needed = λ start h. h;
  }

  pub Grown-trans : {s t u : List String} → Grown s t → Grown t u → Grown s u
  Grown-trans g h = record {
    grows = λ x p. h.grows x (g.grows x p);
    inside = λ x p. elim (h.inside x p) [ inl q ↦ g.inside x q | inr q ↦ inr q ];
    closed = λ x d p dep. elim (h.closed x d p dep) [
      | inl q ↦ elim (g.closed x d q dep) [ inl r ↦ inl r | inr r ↦ inr (h.grows d r) ]
      | inr q ↦ inr q
    ];
    needed = λ start p. h.needed start (g.needed start p);
  }

  -- All dependencies of `id` are in the set.
  abbrev pub Done : String → List String → Type 0
  Done id t = (d : String) → Depends id d → In d t

  -- A new id of the channel, selected with its dependencies, for an id that was there.
  pub Grown-cons :
      {s t : List String} {d : String} (id : String)
      → In id s
      → Depends id d
      → In d channel
      → mem d exclude ≡ false
      → Grown (d ∷ s) t
      → Done d t
      → Grown s t
  Grown-cons {s} {t} {d} id old dep here kept g done = record {
    grows = λ x p. g.grows x (mem_later x d s p);
    inside = λ x p. elim (g.inside x p) [
      | inl q ↦ elim (mem-cons_cases x d s q) [
        | inl e ↦ inr (subst (λ z. In z channel × (mem z exclude ≡ false)) (sym e) (here, kept))
        | inr r ↦ inl r
      ]
      | inr q ↦ inr q
    ];
    closed = λ x e p dep'. elim (g.closed x e p dep') [
      | inl q ↦ elim (mem-cons_cases x d s q) [
        | inl eq ↦ inr (done e (subst (λ z. Depends z e) eq dep'))
        | inr r ↦ inl r
      ]
      | inr q ↦ inr q
    ];
    needed = λ start p. g.needed start (λ x q. elim (mem-cons_cases x d s q) [
      | inl e ↦ subst (Needs start) (sym e) (dependency (p id old) dep)
      | inr r ↦ p x r
    ]);
  }

  -- What a call for `id` on the set `s` returns or raises.
  abbrev pub Outcome : String → List String → Result Error (List String) → Type 0
  Outcome id s (ok t) = Grown s t × Done id t
  Outcome id s (err e) = OnDependency e
