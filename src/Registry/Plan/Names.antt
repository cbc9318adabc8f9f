-- ===== src/Registry/Plan/Names.antt =====
-- Facts about the names that `build_plan` looks up: the dictionary of entries, the ids of filtered
-- lists, and sets that grow.
use k8s_lab_vmware.Prelude.{
  ℕ, ◌≤◌, ◌<◌, String, List, [], ◌∷◌, ◌++◌, ◌≡◌, refl, Bool, true, false, not, ◌||◌, some, mem,
  mem-append, keep, Dict, lookup, insert, lookup-insert, arith, ◌⊎◌, eq_iff, eq_refl, is_some,
  some_of_is_some, count,
}
use k8s_lab_vmware.Registry.{Collector, ids}
use k8s_lab_vmware.Registry.Plan.{entries_from, entries_of}

abbrev pub In : String → List String → Type 0
In x s = mem x s ≡ true

abbrev pub Sub : List String → List String → Type 0
Sub s t = (x : String) → In x s → In x t

pub lookup-entries_from :
    (x : String) (d : Dict Collector) (cs : List Collector)
    → is_some (lookup x (entries_from d cs)) ≡ (mem x (ids cs) || is_some (lookup x d))
unfolding entries_from mem
lookup-entries_from x d [] = refl
lookup-entries_from x d (c ∷ cs) = ground (
  arith,
  lookup-entries_from x (insert c.id c d) cs,
  lookup-insert c.id x c d,
  eq_iff c.id x,
  eq_iff x c.id,
)

-- Every id of the registry has an entry.
pub lookup-entries_of :
    (x : String) (cs : List Collector)
    → In x (ids cs)
    → (c : Collector) × (lookup x (entries_of cs) ≡ some c)
unfolding lookup
lookup-entries_of x cs h =
    some_of_is_some (lookup x (entries_of cs)) (rw (lookup-entries_from x [] cs, h))

pub mem-ids-keep :
    (x : String) (p : Collector → Bool) (cs : List Collector)
    → In x (ids (keep p cs))
    → In x (ids cs)
unfolding mem
mem-ids-keep x p [] h = h
mem-ids-keep x p (c ∷ cs) h = ground (arith, mem-ids-keep x p cs)

-- A stronger test keeps fewer ids.
pub ids-keep_mono :
    (x : String) (p q : Collector → Bool) (cs : List Collector)
    → ((c : Collector) → p c ≡ true → q c ≡ true)
    → In x (ids (keep p cs))
    → In x (ids (keep q cs))
unfolding mem
ids-keep_mono x p q [] weaker h = h
ids-keep_mono x p q (c ∷ cs) weaker h = ground (arith, ids-keep_mono x p q cs weaker, weaker c)

pub mem_self : (x : String) (s : List String) → In x (x ∷ s)
unfolding mem
mem_self x s = ground (arith, eq_refl x)

pub mem_later : (x y : String) (s : List String) → In x s → In x (y ∷ s)
unfolding mem
mem_later x y s h = ground (arith)

pub mem-nil : (x : String) → mem x [] ≡ false
unfolding mem
mem-nil x = refl

pub not-mem-nil : (x : String) → In x [] → ⊥
unfolding mem
not-mem-nil x h = cc

pub mem-cons_cases : (x y : String) (s : List String) → In x (y ∷ s) → (x ≡ y) ⊎ In x s
unfolding mem
mem-cons_cases x y s h = ground (arith, eq_iff x y)

pub not-mem_of_Sub : (x : String) (s t : List String) → Sub s t → mem x t ≡ false → mem x s ≡ false
not-mem_of_Sub x s t h new = ground (arith, h x)

pub Sub-append_one : (s t : List String) (y : String) → Sub s t → In y t → Sub (s ++ y ∷ []) t
unfolding mem
Sub-append_one s t y h here x p = ground (arith, mem-append x s (y ∷ []), h x, eq_iff x y)

-- How many of `xs` are not in `s` yet.
abbrev pub missing : List String → List String → ℕ
missing xs s = count (λ x. not (mem x s)) xs

pub missing_anti : (xs s t : List String) → Sub s t → missing xs t ≤ missing xs s
missing_anti [] s t h = omega arith
missing_anti (x ∷ xs) s t h = ground (arith, missing_anti xs s t h, h x)

-- Selecting a new id of `xs` leaves fewer.
pub missing-cons :
    (d : String) (xs s : List String)
    → In d xs
    → mem d s ≡ false
    → missing xs (d ∷ s) < missing xs s
unfolding mem
missing-cons d (x ∷ xs) s h new = ground (
  arith,
  eq_iff d x,
  eq_iff x d,
  missing-cons d xs s,
  missing_anti xs s (d ∷ s) (λ y hy. mem_later y d s hy),
)
missing-cons d [] s h new = ground arith
