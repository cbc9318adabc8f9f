-- ===== src/Registry/Load/Valid.antt =====
-- The registries that `load_registry` accepts.
use k8s_lab_vmware.Prelude.{
  zero, suc, ◌<◌, String, List, [], ◌∷◌, map, ◌≡◌, ◌↔◌, refl, sym, ap, true, false, ◌||◌, mem,
  minus, minus-empty, is_empty-minus, is_empty, All, arith, eq_iff, Bool-cases, inl, inr, subst,
}
use k8s_lab_vmware.Prelude.Int.{ℤ, pos, negsuc, pos_part}
use k8s_lab_vmware.Prelude.Result.{ok, ok_inj, err-ne-ok, ◌>>◌, returned}
use k8s_lab_vmware.Registry.{Collector, Entry, malformed, entry, Unique, ids}
use k8s_lab_vmware.Registry.Load.{not_positive, check_entries, check_dependencies, load_registry}

-- Weight and timeout are positive.
abbrev pub Positive : Collector → Type 0
Positive c = (0 < pos_part c.weight) × (0 < pos_part c.timeout_seconds)

abbrev pub Known : List String → Collector → Type 0
Known seen c = (d : String) → mem d c.dependencies ≡ true → mem d seen ≡ true

abbrev pub IsValid : List Collector → Type 0
IsValid cs = (is_empty cs ≡ false) × Unique cs × All Positive cs × All (Known (ids cs)) cs

-- No id of the list was seen before.
abbrev Fresh : List String → List Collector → Type 0
Fresh seen cs = All (λ c. mem c.id seen ≡ false) cs

positive_lem : (w : ℤ) → (not_positive w ≡ false) ↔ (0 < pos_part w)
positive_lem (pos zero) = ground arith
positive_lem (pos (suc n)) = ground arith
positive_lem (negsuc n) = ground arith

Positive-iff :
    (c : Collector)
    → ((not_positive c.weight || not_positive c.timeout_seconds) ≡ false) ↔ Positive c
Positive-iff c = ground (arith, positive_lem c.weight, positive_lem c.timeout_seconds)

Fresh-own :
    (x : String) (seen : List String) (cs : List Collector)
    → Fresh (x ∷ seen) cs
    → mem x (ids cs) ≡ false
unfolding mem
Fresh-own x seen [] h = refl
Fresh-own x seen (c ∷ cs) h =
    ground (arith, Fresh-own x seen cs h.1, eq_iff x c.id, eq_iff c.id x, h.0)

Fresh-tail :
    (x : String) (seen : List String) (cs : List Collector) → Fresh (x ∷ seen) cs → Fresh seen cs
unfolding mem
Fresh-tail x seen [] h = tt
Fresh-tail x seen (c ∷ cs) h = (ground arith, Fresh-tail x seen cs h.1)

Fresh-cons :
    (x : String) (seen : List String) (cs : List Collector)
    → mem x (ids cs) ≡ false
    → Fresh seen cs
    → Fresh (x ∷ seen) cs
unfolding mem
Fresh-cons x seen [] n h = tt
Fresh-cons x seen (c ∷ cs) n h =
    (ground (arith, h.0, eq_iff x c.id, eq_iff c.id x), Fresh-cons x seen cs (ground arith) h.1)

Fresh-nil : (cs : List Collector) → Fresh [] cs
unfolding mem
Fresh-nil [] = tt
Fresh-nil (c ∷ cs) = (refl, Fresh-nil cs)

check_entries_sound :
    (seen : List String) (entries : List Entry) (cs : List Collector)
    → check_entries seen entries ≡ ok cs
    → (entries ≡ map entry cs) × Fresh seen cs × Unique cs × All Positive cs
unfolding check_entries
check_entries_sound seen [] cs h = rw (← ok_inj h) (refl, tt, tt, tt)
check_entries_sound seen (malformed ∷ rest) cs h = cc
check_entries_sound seen (entry c ∷ rest) cs h = elim (Bool-cases (mem c.id seen)) [
  | inl e ↦ absurd (err-ne-ok (rw e at h))
  | inr new ↦ elim (Bool-cases (not_positive c.weight || not_positive c.timeout_seconds)) [
    | inl e ↦ absurd (err-ne-ok (rw (new, e) at h))
    | inr p ↦
        let (cs', m, e) =
          returned (check_entries (c.id ∷ seen) rest) (λ xs. ok (c ∷ xs)) (rw (new, p) at h) in
        let (r, f, u, ps) = check_entries_sound (c.id ∷ seen) rest cs' m in
        subst (λ z. (entry c ∷ rest ≡ map entry z) × Fresh seen z × Unique z × All Positive z)
          (ok_inj e)
          (
            ap (λ z. entry c ∷ z) r,
            (new, Fresh-tail c.id seen cs' f),
            (Fresh-own c.id seen cs' f, u),
            ((Positive-iff c).0 p, ps),
          )
  ]
]

check_entries_complete :
    (seen : List String) (cs : List Collector)
    → Fresh seen cs
    → Unique cs
    → All Positive cs
    → check_entries seen (map entry cs) ≡ ok cs
unfolding check_entries
check_entries_complete seen [] f u p = refl
check_entries_complete seen (c ∷ cs) f u p = rw (
  f.0,
  (Positive-iff c).1 p.0,
  check_entries_complete (c.id ∷ seen) cs (Fresh-cons c.id seen cs u.0 f.1) u.1 p.1,
)

check_dependencies_iff :
    (seen : List String) (cs : List Collector)
    → (check_dependencies seen cs ≡ ok tt) ↔ All (Known seen) cs
unfolding check_dependencies
check_dependencies_iff seen [] = (λ h. tt, λ h. refl)
check_dependencies_iff seen (c ∷ cs) =
    let ih = check_dependencies_iff seen cs in
    elim (Bool-cases (is_empty (minus c.dependencies seen))) [
      | inl e ↦ (
        λ h. (λ d p. minus-empty c.dependencies seen d e p, ih.0 (rw e at h)),
        λ (k, r). rw e (ih.1 r),
      )
      | inr e ↦ (
        λ h. absurd (err-ne-ok (rw e at h)),
        λ (k, r). ground (arith, is_empty-minus c.dependencies seen k),
      )
    ]

not_empty :
    {x : Entry} {entries : List Entry} (cs : List Collector)
    → x ∷ entries ≡ map entry cs
    → is_empty cs ≡ false
not_empty [] h = cc
not_empty (c ∷ cs) h = refl

load_registry-map : (cs : List Collector) → IsValid cs → load_registry (map entry cs) ≡ ok cs
unfolding load_registry
load_registry-map [] v = cc (v.0)
load_registry-map (c ∷ cs) (e, q, p, k) = rw (
  check_entries_complete [] (c ∷ cs) (Fresh-nil (c ∷ cs)) q p,
  (check_dependencies_iff (ids (c ∷ cs)) (c ∷ cs)).1 k,
)

-- `load_registry` accepts exactly the lists of well-formed entries, at least one, with unique ids,
-- positive weights and timeouts, and dependencies that are ids of the registry, and returns them
-- as they stand.
pub load_registry_iff :
    (entries : List Entry) (cs : List Collector)
    → (load_registry entries ≡ ok cs) ↔ ((entries ≡ map entry cs) × IsValid cs)
unfolding load_registry
load_registry_iff [] [] = (λ h. absurd (err-ne-ok h), λ h. cc (h.1.0))
load_registry_iff [] (c ∷ cs) = (λ h. absurd (err-ne-ok h), λ h. cc (h.0))
load_registry_iff (x ∷ entries) cs = (
  λ h.
      let (cs', m, rest) =
        returned (check_entries [] (x ∷ entries)) (λ xs. check_dependencies (ids xs) xs >> ok xs)
          h in
      let (u, d, e) = returned (check_dependencies (ids cs') cs') (λ _. ok cs') rest in
      let (r, f, q, p) = check_entries_sound [] (x ∷ entries) cs' m in
      subst (λ z. (x ∷ entries ≡ map entry z) × IsValid z) (ok_inj e)
        (r, (not_empty cs' r, q, p, (check_dependencies_iff (ids cs') cs').0 d)),
  λ (r, v). subst (λ z. load_registry z ≡ ok cs) (sym r) (load_registry-map cs v),
)
