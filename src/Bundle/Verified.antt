-- ===== src/Bundle/Verified.antt =====
-- What an archive that is verified holds.
use k8s_lab_vmware.Bundle.Inspected.{Inspected, inspect_bundle-Inspected}
use k8s_lab_vmware.Prelude.{
  All-lookup, ℕ, ◌+◌, String, List, [], ◌∷◌, ◌≡◌, ◌⊎◌, inl, inr, subst, refl, sym, ◌∙◌, ap, Has,
  Bool-cases, Bool, true, false, not, ◌&&◌, Option, none, some, ◌==◌, mem, keep, length, is_empty,
  ltb, Dict, lookup, arith, All, eq_iff,
}
use k8s_lab_vmware.Prelude.Result.{ok, ok_inj, err-ne-ok, returned, passed_guard, refuse}
use k8s_lab_vmware.Bundle.Expected.{
  place, last_entry, last_entry-Has, expected_files-last_entry, IsWellFormed,
  expected_files-IsWellFormed, read_manifest-member,
}
use k8s_lab_vmware.Bundle.{
  max_files, is_collection_id, Member, Entry, Manifest, Decoded, manifest, nothing_found,
  inspect_members, only_root, read_manifest, in_root, inspect_bundle, expected_files, keys, not_in,
  same_size, check_content, check_contents, Verification, verify_bundle, too_many_entries,
  invalid_root, invalid_id, file_set, size_mismatch, checksum_mismatch,
}

-- A file of the manifest is a member of the archive, with the size and the digest of the manifest.
abbrev pub IsIntact : (String → String) → Dict Member → String × Entry → Type 0
IsIntact sha256 members (name, e) =
    (m : Member) × (lookup name members ≡ some m)
    × (e.size ≡ some m.size)
    × (sha256 m.content ≡ e.sha256)

size_lem : (o : Option ℕ) (n : ℕ) → not (same_size o n) ≡ false → o ≡ some n
size_lem none n h = cc
size_lem (some m) n h = ground arith

content_lem :
    (sha256 : String → String) (name : String) (e : Entry) (o : Option Member)
    → check_content sha256 name e o ≡ ok tt
    → (m : Member) × (o ≡ some m) × (e.size ≡ some m.size) × (sha256 m.content ≡ e.sha256)
content_lem sha256 name e none h = absurd (err-ne-ok h)
content_lem sha256 name e (some m) h =
    let same = sha256 m.content == e.sha256 in
    let (sized, next) =
      passed_guard (not (same_size e.size m.size)) (size_mismatch name)
        (refuse (not same) (checksum_mismatch name)) h in
    (m, refl, size_lem e.size m.size sized, ground (arith, eq_iff (sha256 m.content) e.sha256))

contents_lem :
    (sha256 : String → String) (members : Dict Member) (expected : Dict Entry)
    → check_contents sha256 members expected ≡ ok tt
    → All (IsIntact sha256 members) expected
unfolding check_contents
contents_lem sha256 members [] h = tt
contents_lem sha256 members ((name, e) ∷ rest) h =
    let (u, first, others) =
      returned (check_content sha256 name e (lookup name members))
        (λ _. check_contents sha256 members rest) h in
    (content_lem sha256 name e (lookup name members) first, contents_lem sha256 members rest others)

false_ne : false ≡ true → ⊥
false_ne h = cc

nothing_else :
    (p : String → Bool) (names : List String) (xs : List String)
    → is_empty (not_in names (keep p xs)) ≡ true
    → All (λ x. (p x ≡ false) ⊎ (mem x names ≡ true)) xs
nothing_else p names [] h = tt
nothing_else p names (x ∷ xs) h = elim (Bool-cases (p x)) [
  | inr out ↦ (inl out, nothing_else p names xs (rw out at h))
  | inl kept ↦ elim (Bool-cases (mem x names)) [
    | inl here ↦ (inr here, nothing_else p names xs (rw (kept, here) at h))
    | inr gone ↦
        (inr (absurd (false_ne (rw (kept, gone) at h))), absurd (false_ne (rw (kept, gone) at h)))
  ]
]

both : (a b : Bool) → not (a && b) ≡ false → b ≡ true
both a b h = ground arith

-- The manifest that an archive holds, in the directory `root`.
abbrev pub HasManifest : (String → Decoded) → Dict Member → Manifest → Type 0
HasManifest decode members m =
    (root : String) × (w : Member) × (is_collection_id root ≡ true)
    × (lookup (in_root root "bundle-manifest.json") members ≡ some w)
    × (decode w.content ≡ manifest m)

inspect_bundle-HasManifest :
    (decode : String → Decoded) (archive : List Member) (m : Manifest) (members : Dict Member)
    → inspect_bundle decode archive ≡ ok (m, members)
    → HasManifest decode members m
unfolding inspect_bundle
inspect_bundle-HasManifest decode archive m members h =
    let few = ltb (max_files + 100) (length archive) in
    let (within, next) = passed_guard few too_many_entries _ h in
    let (found, inspected, rooted) = returned (inspect_members archive nothing_found) _ next in
    let (root, one, named) = returned (only_root found.roots) _ rooted in
    let (valid, held) = passed_guard (not (is_collection_id root)) invalid_root _ named in
    let held_at = lookup (in_root root "bundle-manifest.json") found.members in
    let (m', read, e) = returned (read_manifest decode held_at) _ held in
    let (w, here, decoded) = read_manifest-member decode held_at m' read in
    let same_manifest = ap (λ (p : Manifest × Dict Member). p.0) (ok_inj e) in
    let same_members = ap (λ (p : Manifest × Dict Member). p.1) (ok_inj e) in
    (
      root,
      w,
      ground arith,
      ap (lookup (in_root root "bundle-manifest.json")) (sym same_members) ∙ here,
      decoded ∙ ap manifest same_manifest,
    )

-- The file of an entry that the manifest lists: a member at the path of the entry, with the size and
-- the digest of the last entry for that path.
abbrev pub HasFile : (String → String) → Dict Member → Manifest → Entry → Type 0
HasFile sha256 members m e =
    (f : Entry) × (w : Member) × (last_entry m.collection_id (place m.collection_id e) m.files
      ≡ some f)
    × (lookup (place m.collection_id e) members ≡ some w)
    × (f.size ≡ some w.size)
    × (sha256 w.content ≡ f.sha256)

expected-HasFile :
    (sha256 : String → String) (members : Dict Member) (m : Manifest) (expected : Dict Entry)
    → expected_files m.collection_id [] m.files ≡ ok expected
    → All (IsIntact sha256 members) expected
    → (e : Entry) → Has (some e) m.files
    → HasFile sha256 members m e
expected-HasFile sha256 members m expected listed intact e here =
    let id = m.collection_id in
    let (f, last) = last_entry-Has id e m.files here in
    let found = expected_files-last_entry id (place id e) m.files expected listed ∙ last in
    let (w, there, size, digest) =
      All-lookup (IsIntact sha256 members) expected (place id e) f intact found in
    (f, w, last, there, size, digest)

-- A verified archive: exactly the manifest and the files that it lists, each of them intact.
pub record Verified (decode : String → Decoded) (sha256 : String → String) (archive : List Member)
    (v : Verification) : Type 0 where
  pub members : Dict Member
  pub inspected : Inspected archive members
  pub read : Manifest
  pub held : HasManifest decode members read
  pub collection : v.collection ≡ read.collection_id
  pub valid : is_collection_id read.collection_id ≡ true
  pub well_formed : All IsWellFormed read.files
  pub expected : (name : String) → lookup name v.expected ≡ last_entry v.collection name read.files
  pub files : (e : Entry) → Has (some e) read.files → HasFile sha256 members read e
  pub intact : All (IsIntact sha256 members) v.expected
  pub complete :
      All
        (λ name.
          (not (name == in_root v.collection "bundle-manifest.json") ≡ false)
          ⊎ (mem name (keys v.expected) ≡ true))
        (keys members)

-- For any reading of manifests and any digest: an archive that is verified is within the limits and
-- safe and holds a manifest that can be read, with a valid id and with entries of safe paths only.
-- At the path of each entry of this manifest it has a file with the size and the digest of the last
-- entry for that path, and it has no file more but the manifest.
pub verify_bundle-Verified :
    (decode : String → Decoded) (sha256 : String → String) (archive : List Member)
    (v : Verification)
    → verify_bundle decode sha256 archive ≡ ok v
    → Verified decode sha256 archive v
unfolding verify_bundle
verify_bundle-Verified decode sha256 archive v h =
    let ((m, members), inspected, next) = returned (inspect_bundle decode archive) _ h in
    let id = m.collection_id in
    let (valid, read) = passed_guard (not (is_collection_id id)) invalid_id _ next in
    let (expected, listed, more) = returned (expected_files id [] m.files) _ read in
    let actual = keep (λ name. not (name == in_root id "bundle-manifest.json")) (keys members) in
    let (same, last) =
      passed_guard
        (not (is_empty (not_in actual (keys expected)) && is_empty (not_in (keys expected) actual)))
        (file_set (not_in actual (keys expected)) (not_in (keys expected) actual)) _ more in
    let (u, checked, e) = returned (check_contents sha256 members expected) _ last in
    let intact = contents_lem sha256 members expected checked in
    subst (Verified decode sha256 archive) (ok_inj e) (record {
      members = members;
      inspected = inspect_bundle-Inspected decode archive m members inspected;
      read = m;
      held = inspect_bundle-HasManifest decode archive m members inspected;
      collection = refl;
      valid = ground arith;
      well_formed = expected_files-IsWellFormed id [] m.files expected listed;
      expected = λ name. expected_files-last_entry id name m.files expected listed;
      files = expected-HasFile sha256 members m expected listed intact;
      intact = intact;
      complete =
          nothing_else (λ name. not (name == in_root id "bundle-manifest.json")) (keys expected)
            (keys members)
            (both (is_empty (not_in actual (keys expected)))
              (is_empty (not_in (keys expected) actual)) same);
    })
