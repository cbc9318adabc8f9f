-- ===== src/Bundle/Prune.antt =====
-- `prune` and `parse_age` of tools/eks-assessment/src/collection_bundle.py. Times are seconds;
-- `created` is the time in the metadata, if there is one that reads as a time.
pub mod Protected
use Prim.Native.Char.{code}
use k8s_lab_vmware.Prelude.{
  ℕ, ◌+◌, ◌-◌, ◌*◌, String, List, [], ◌∷◌, map, Bool, true, false, not, ◌&&◌, ◌||◌, Option, none,
  some, if◌then◌else◌, get_or, ltb, leb, nat_eq, keep, has_prefix,
}

-- A directory entry of the root, with what its metadata says.
pub record Directory : Type 0 where
  pub name : String
  pub is_directory : Bool
  pub is_symlink : Bool
  pub created : Option ℕ
  pub modified : ℕ
  pub baseline : Bool

-- The digits after the first, then the unit; `none` where the text does not match.
unfoldable pub age_from : (count : ℕ) → String → Option ℕ
age_from count String.[] = none
age_from count (String.◌∷◌ c String.[]) =
    if nat_eq (code c) 100
    then some (count * 86400)
    else if nat_eq (code c) 104
    then some (count * 3600)
    else none
age_from count (String.◌∷◌ c s) =
    let rest = age_from (count * 10 + (code c - 48)) s in
    if leb 48 (code c) && leb (code c) 57 then rest else none

-- `([1-9][0-9]*)([hd])`, in seconds
unfoldable pub parse_age : String → Option ℕ
unfolding age_from
parse_age String.[] = none
parse_age (String.◌∷◌ c s) =
    if leb 49 (code c) && leb (code c) 57 then age_from (code c - 48) s else none

-- `parse_timestamp` falls back to the time of the directory.
abbrev pub created_at : Directory → ℕ
created_at d = get_or d.created d.modified

unfoldable pub is_candidate : (now age : ℕ) (include_baselines : Bool) → Directory → Bool
is_candidate now age include_baselines d =
    (d.is_directory && not d.is_symlink && has_prefix "eks-" d.name)
    && (ltb (created_at d + age) now && (include_baselines || not d.baseline))

pub record Pruned : Type 0 where
  pub candidates : List String
  pub removed : List String
  pub refused : Bool

-- The target of a candidate, the name of its resolved path if that is in the root.
abbrev pub is_target : Option String → Bool
is_target none = false
is_target (some name) = has_prefix "eks-" name

-- The loop ends at the first target that is refused; `resolve` is `(root / id).resolve()`.
unfoldable pub remove_each : (resolve : String → Option String) → List String → List String × Bool
remove_each resolve [] = ([], false)
remove_each resolve (id ∷ ids) =
    let rest = remove_each resolve ids in
    if is_target (resolve id) then (id ∷ rest.0, rest.1) else ([], true)

unfoldable pub prune :
    (resolve : String → Option String) (now age : ℕ) (confirm include_baselines : Bool)
    → List Directory
    → Pruned
unfolding is_candidate remove_each
prune resolve now age confirm include_baselines root =
    let candidates =
      map (λ (d : Directory). d.name) (keep (is_candidate now age include_baselines) root) in
    record {
      candidates = candidates;
      removed = if confirm then (remove_each resolve candidates).0 else [];
      refused = if confirm then (remove_each resolve candidates).1 else false;
    }
