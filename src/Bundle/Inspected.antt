-- ===== src/Bundle/Inspected.antt =====
-- What an archive that is inspected holds.
use k8s_lab_vmware.Prelude.{
  ℕ, ◌+◌, ◌≤◌, String, List, [], ◌∷◌, ◌≡◌, subst, ap, true, false, not, if◌then◌else◌, length,
  sum_by, ltb→le, ltb, Dict, lookup, arith, All,
}
use k8s_lab_vmware.Prelude.Result.{Result, ok, err, ok_inj, returned, passed_guard}
use k8s_lab_vmware.Bundle.Members.{
  key_of, Listed, IsKey, inspect_members-IsKey, inspect_members-Listed,
}
use k8s_lab_vmware.Bundle.{
  max_files, max_uncompressed_bytes, posix_path, safe_relative, is_collection_id, Member, Manifest,
  Decoded, Error, is_unsupported, is_regular, Found, nothing_found, inspect_member, inspect_members,
  only_root, read_manifest, in_root, inspect_bundle, too_many_entries, invalid_root, unsafe_path,
  unsupported_member, with_member, add_root, first_part, too_large,
}

abbrev pub regular_size : Member → ℕ
regular_size m = if is_regular m.kind then m.size else 0

-- A relative path without `..`, of a member that is no link and no device.
pub record IsSafe (m : Member) : Type 0 where
  pub path : safe_relative (posix_path m.name) ≡ true
  pub kind : is_unsupported m.kind ≡ false

abbrev seen : Member → Found → Found
seen m f = record f { roots = add_root (first_part (posix_path m.name).parts) f.roots }

counted :
    (m : Member) (f f' : Found)
    → ◌≡◌ {A = Result Error Found}
        (if is_regular m.kind
          then (if ltb max_uncompressed_bytes (f.total + m.size)
              then err too_large
              else ok (with_member m (seen m f)))
          else ok (seen m f))
        (ok f')
    → (f'.total ≡ f.total + regular_size m)
      × (f.total ≤ max_uncompressed_bytes → f'.total ≤ max_uncompressed_bytes)
counted m f f' h = ground arith

inspect_member-IsSafe :
    (m : Member) (f f' : Found)
    → inspect_member m f ≡ ok f'
    → IsSafe m
      × (f'.total ≡ f.total + regular_size m)
      × (f.total ≤ max_uncompressed_bytes → f'.total ≤ max_uncompressed_bytes)
unfolding inspect_member
inspect_member-IsSafe m f f' h =
    let (safe, next) =
      passed_guard (not (safe_relative (posix_path m.name))) (unsafe_path m.name) _ h in
    let (allowed, last) = passed_guard (is_unsupported m.kind) (unsupported_member m.name) _ next in
    let (total, below) = counted m f f' last in
    (record { path = ground arith; kind = allowed }, total, below)

inspect_members-IsSafe :
    (ms : List Member) (f f' : Found)
    → inspect_members ms f ≡ ok f'
    → All IsSafe ms
      × (f'.total ≡ f.total + sum_by regular_size ms)
      × (f.total ≤ max_uncompressed_bytes → f'.total ≤ max_uncompressed_bytes)
unfolding inspect_members
inspect_members-IsSafe [] f f' h = (tt, ground arith, ground arith)
inspect_members-IsSafe (m ∷ ms) f f' h =
    let (g, first, rest) = returned (inspect_member m f) (λ x. inspect_members ms x) h in
    let (safe, total, below) = inspect_member-IsSafe m f g first in
    let (others, sum, under) = inspect_members-IsSafe ms g f' rest in
    ((safe, others), omega arith, λ start. under (below start))

-- An archive that is inspected is within the limits, and the dictionary has its files, each under its
-- path, and nothing else.
pub record Inspected (archive : List Member) (members : Dict Member) : Type 0 where
  pub entries : length archive ≤ max_files + 100
  pub bytes : sum_by regular_size archive ≤ max_uncompressed_bytes
  pub safe : All IsSafe archive
  pub listed : All (Listed archive) members
  pub every_file : All (λ m. is_regular m.kind ≡ true → IsKey members (key_of m)) archive

-- For any reading of manifests: an archive that is inspected without an error has no more members and
-- no more bytes of files than the limits, and only safe paths of files and directories; the result has
-- each of its files under its path, and nothing else.
pub inspect_bundle-Inspected :
    (decode : String → Decoded) (archive : List Member) (m : Manifest) (members : Dict Member)
    → inspect_bundle decode archive ≡ ok (m, members)
    → Inspected archive members
unfolding inspect_bundle
inspect_bundle-Inspected decode archive m members h =
    let few = ltb (max_files + 100) (length archive) in
    let (within, next) = passed_guard few too_many_entries _ h in
    let (found, inspected, rooted) = returned (inspect_members archive nothing_found) _ next in
    let (root, one, named) = returned (only_root found.roots) _ rooted in
    let (valid, held) = passed_guard (not (is_collection_id root)) invalid_root _ named in
    let (m', read, e) =
      returned (read_manifest decode (lookup (in_root root "bundle-manifest.json") found.members)) _
        held in
    let (safe, total, below) = inspect_members-IsSafe archive nothing_found found inspected in
    subst (Inspected archive) (ap (λ (p : Manifest × Dict Member). p.1) (ok_inj e)) (record {
      entries = ltb→le (max_files + 100) (length archive) within;
      bytes = omega (arith, below (omega arith));
      safe = safe;
      listed = inspect_members-Listed archive found inspected;
      every_file = inspect_members-IsKey archive nothing_found found inspected;
    })
