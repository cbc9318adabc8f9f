-- ===== src/Bundle/Expected.antt =====
-- The dictionary of the files that a manifest lists.
use k8s_lab_vmware.Prelude.{
  or_later, or_later_assoc, or_later-none, String, List, [], ◌∷◌, ◌≡◌, refl, sym, ◌∙◌, ap, true,
  not, Option, none, some, if◌then◌else◌, ◌==◌, eq_iff, Dict, lookup, insert, lookup-insert,
  Option-cases, inl, inr, All, Has, arith, some_inj,
}
use k8s_lab_vmware.Prelude.Result.{ok, ok_inj, err-ne-ok, passed_guard}
use k8s_lab_vmware.Bundle.{
  posix_path, as_posix, safe_relative, in_root, Member, Entry, Manifest, Decoded, manifest,
  undecodable, off_contract, read_manifest, expected_files, unsafe_manifest_path,
}

-- Where an archive has the file of an entry.
abbrev pub place : (id : String) → Entry → String
place id e = in_root id (as_posix (posix_path e.path))

-- The last entry for that place.
unfoldable pub last_entry : (id name : String) → List (Option Entry) → Option Entry
last_entry id name [] = none
last_entry id name (none ∷ rest) = last_entry id name rest
last_entry id name (some e ∷ rest) =
    or_later (if place id e == name then some e else none) (last_entry id name rest)

entry_round :
    (id name : String) (e : Entry) (d : Dict Entry)
    → lookup name (insert (place id e) e d)
      ≡ or_later (lookup name d) (if place id e == name then some e else none)
entry_round id name e d = ground (arith, lookup-insert (place id e) name e d)

expected_files-last :
    (id name : String) (d : Dict Entry) (files : List (Option Entry)) (expected : Dict Entry)
    → expected_files id d files ≡ ok expected
    → lookup name expected ≡ or_later (lookup name d) (last_entry id name files)
unfolding expected_files last_entry
expected_files-last id name d [] expected h = ap (lookup name) (sym (ok_inj h))
expected_files-last id name d (none ∷ rest) expected h = absurd (err-ne-ok h)
expected_files-last id name d (some e ∷ rest) expected h =
    let here = if place id e == name then some e else none in
    let (safe, next) =
      passed_guard (not (safe_relative (posix_path e.path))) (unsafe_manifest_path e.path) _ h in
    expected_files-last id name (insert (place id e) e d) rest expected next
    ∙ ap (λ x. or_later x (last_entry id name rest)) (entry_round id name e d)
    ∙ or_later_assoc (lookup name d) here (last_entry id name rest)

-- The dictionary has under each name the last entry for it.
pub expected_files-last_entry :
    (id name : String) (files : List (Option Entry)) (expected : Dict Entry)
    → expected_files id [] files ≡ ok expected
    → lookup name expected ≡ last_entry id name files
unfolding lookup
expected_files-last_entry id name files expected h =
    expected_files-last id name [] files expected h ∙ or_later-none (last_entry id name files)

-- An entry of the manifest is an object with a safe relative path.
abbrev pub IsWellFormed : Option Entry → Type 0
IsWellFormed none = ⊥
IsWellFormed (some e) = safe_relative (posix_path e.path) ≡ true

pub expected_files-IsWellFormed :
    (id : String) (d : Dict Entry) (files : List (Option Entry)) (expected : Dict Entry)
    → expected_files id d files ≡ ok expected
    → All IsWellFormed files
unfolding expected_files
expected_files-IsWellFormed id d [] expected h = tt
expected_files-IsWellFormed id d (none ∷ rest) expected h = absurd (err-ne-ok h)
expected_files-IsWellFormed id d (some e ∷ rest) expected h =
    let (safe, next) =
      passed_guard (not (safe_relative (posix_path e.path))) (unsafe_manifest_path e.path) _ h in
    (ground arith, expected_files-IsWellFormed id (insert (place id e) e d) rest expected next)

-- An entry that is listed has a last entry for its place.
pub last_entry-Has :
    (id : String) (e : Entry) (files : List (Option Entry))
    → Has (some e) files
    → (f : Entry) × (last_entry id (place id e) files ≡ some f)
unfolding last_entry
last_entry-Has id e [] h = absurd h
last_entry-Has id e (none ∷ rest) (inl h) = cc
last_entry-Has id e (some g ∷ rest) (inl h) =
    elim (Option-cases (last_entry id (place id e) rest)) [
      | inl absent ↦ (
        g,
        rw absent (ground (arith, eq_iff (place id g) (place id e), ap (place id) (some_inj h))),
      )
      | inr (f, later) ↦ (f, rw later refl)
    ]
last_entry-Has id e (none ∷ rest) (inr h) = last_entry-Has id e rest h
last_entry-Has id e (some g ∷ rest) (inr h) =
    let (f, later) = last_entry-Has id e rest h in (f, rw later refl)

decoded_ok :
    (decode : String → Decoded) (w : Member) (m : Manifest) (x : Decoded)
    → decode w.content ≡ x
    → read_manifest decode (some w) ≡ ok m
    → x ≡ manifest m
decoded_ok decode w m undecodable e h = absurd (err-ne-ok (rw (e, read_manifest) at h))
decoded_ok decode w m off_contract e h = absurd (err-ne-ok (rw (e, read_manifest) at h))
decoded_ok decode w m (manifest v) e h = ap manifest (ok_inj (rw (e, read_manifest) at h))

-- A manifest that is read is that of a member.
pub read_manifest-member :
    (decode : String → Decoded) (o : Option Member) (m : Manifest)
    → read_manifest decode o ≡ ok m
    → (w : Member) × (o ≡ some w) × (decode w.content ≡ manifest m)
read_manifest-member decode none m h = absurd (err-ne-ok h)
read_manifest-member decode (some w) m h =
    (w, refl, decoded_ok decode w m (decode w.content) refl h)
