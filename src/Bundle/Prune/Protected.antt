-- ===== src/Bundle/Prune/Protected.antt =====
-- What pruning leaves alone.
use k8s_lab_vmware.Prelude.{
  ℕ, ◌+◌, ◌<◌, String, List, [], ◌∷◌, map, ◌≡◌, inl, inr, refl, Bool, true, false, Option, keep,
  has_prefix, Has, All, All-Has, arith, Bool-cases,
}
use k8s_lab_vmware.Bundle.Prune.{Directory, created_at, is_candidate, is_target, remove_each, prune}

-- What is known of a collection that is removed.
pub record IsOld (now age : ℕ) (include_baselines : Bool) (root : List Directory) (id : String)
    : Type 0 where
  pub directory : Directory
  pub here : Has directory root
  pub name : directory.name ≡ id
  pub is_directory : directory.is_directory ≡ true
  pub prefix : has_prefix "eks-" id ≡ true
  pub old : created_at directory + age < now
  pub baseline : include_baselines ≡ false → directory.baseline ≡ false

module _ (now age : ℕ) (include_baselines : Bool) where
  candidate-IsOld :
      (root : List Directory) (d : Directory)
      → Has d root
      → is_candidate now age include_baselines d ≡ true
      → IsOld now age include_baselines root d.name
  unfolding is_candidate
  candidate-IsOld root d here h = record {
    directory = d;
    here = here;
    name = refl;
    is_directory = ground arith;
    prefix = ground arith;
    old = ground arith;
    baseline = ground arith;
  }

  candidates-IsOld :
      (root ds : List Directory)
      → All (λ d. Has d root) ds
      → All
          (IsOld now age include_baselines root)
          (map (λ (d : Directory). d.name) (keep (is_candidate now age include_baselines) ds))
  candidates-IsOld root [] h = tt
  candidates-IsOld root (d ∷ ds) h = elim (Bool-cases (is_candidate now age include_baselines d)) [
    | inl e ↦ rw e (candidate-IsOld root d h.0 e, candidates-IsOld root ds h.1)
    | inr e ↦ rw e (candidates-IsOld root ds h.1)
  ]

removed_each :
    (P : String → Type 0) (resolve : String → Option String) (ids : List String)
    → All P ids
    → All (λ id. P id × (is_target (resolve id) ≡ true)) (remove_each resolve ids).0
unfolding remove_each
removed_each P resolve [] h = tt
removed_each P resolve (id ∷ ids) h = elim (Bool-cases (is_target (resolve id))) [
  | inl e ↦ rw e ((h.0, e), removed_each P resolve ids h.1)
  | inr e ↦ rw e tt
]

-- For any root: without confirmation nothing is removed; what is removed is a directory of the root
-- with the prefix `eks-`, older than the age, no baseline unless those are included, and its resolved
-- path is one of the root with that prefix.
pub prune-IsOld :
    (resolve : String → Option String) (now age : ℕ) (confirm include_baselines : Bool)
    (root : List Directory)
    → (confirm ≡ false → (prune resolve now age confirm include_baselines root).removed ≡ [])
      × All
          (λ id. IsOld now age include_baselines root id × (is_target (resolve id) ≡ true))
          (prune resolve now age confirm include_baselines root).removed
unfolding prune
prune-IsOld resolve now age true include_baselines root = (
  λ h. cc,
  removed_each (IsOld now age include_baselines root) resolve
      (map (λ (d : Directory). d.name) (keep (is_candidate now age include_baselines) root))
      (candidates-IsOld now age include_baselines root root
        (All-Has (λ d. Has d root) root (λ d p. p))),
)
prune-IsOld resolve now age false include_baselines root = (λ h. refl, tt)
