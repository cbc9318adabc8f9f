-- ===== src/Bundle/Import/Written.antt =====
-- What an import writes.
use k8s_lab_vmware.Prelude.{
  All-insert, All-Has, String, List, [], ◌∷◌, ◌≡◌, inl, inr, subst, refl, ap, Bool, true, false,
  is_empty, insert, join, All, Has, arith, Bool-cases,
}
use k8s_lab_vmware.Prelude.Result.{ok, ok_inj, err-ne-ok, returned, passed_guard}
use k8s_lab_vmware.Bundle.{
  Kind, regular, directory, symbolic_link, hard_link, special, unknown, Member, Decoded,
  destination_exists, posix_path, Verification, verify_bundle, is_regular,
}
use k8s_lab_vmware.Bundle.Verified.{Verified, verify_bundle-Verified}
use k8s_lab_vmware.Bundle.Import.{
  Tree, empty_tree, parent, without_root, make_directory, write_file, extract_kind, extract_member,
  extract_members, import_bundle,
}

-- A file of the tree is a file of the archive, at its path below the root.
abbrev pub From : List Member → String × String → Type 0
From archive (path, content) =
    (m : Member) × Has m archive
    × (is_regular m.kind ≡ true)
    × (content ≡ m.content)
    × (path ≡ join (without_root (posix_path m.name).parts))

make_directory-files :
    (parts : List String) (t t' : Tree) → make_directory parts t ≡ ok t' → t'.files ≡ t.files
unfolding make_directory
make_directory-files parts t t' h = ground arith

write_file-files :
    (parts : List String) (content : String) (t t' : Tree)
    → write_file parts content t ≡ ok t'
    → t'.files ≡ insert (join parts) content t.files
unfolding write_file
write_file-files parts content t t' h = ground arith

extract_kind-From :
    (archive : List Member) (m : Member) (k : Kind) (t t' : Tree)
    → Has m archive
    → m.kind ≡ k
    → extract_kind k m (without_root (posix_path m.name).parts) t ≡ ok t'
    → All (From archive) t.files
    → All (From archive) t'.files
extract_kind-From archive m directory t t' here e h d =
    rw (make_directory-files (without_root (posix_path m.name).parts) t t' h) d
extract_kind-From archive m regular t t' here e h d =
    let parts = without_root (posix_path m.name).parts in
    let (u, made, written) =
      returned (make_directory (parent parts) t) (λ x. write_file parts m.content x) h in
    let same = make_directory-files (parent parts) t u made in
    rw (write_file-files parts m.content u t' written, same)
      (All-insert (From archive) (join parts) m.content t.files d (m, here, rw e refl, refl, refl))
extract_kind-From archive m symbolic_link t t' here e h d = absurd (err-ne-ok h)
extract_kind-From archive m hard_link t t' here e h d = absurd (err-ne-ok h)
extract_kind-From archive m special t t' here e h d = absurd (err-ne-ok h)
extract_kind-From archive m unknown t t' here e h d = absurd (err-ne-ok h)

extract_member-From :
    (archive : List Member) (m : Member) (t t' : Tree)
    → Has m archive
    → extract_member m t ≡ ok t'
    → All (From archive) t.files
    → All (From archive) t'.files
unfolding extract_member
extract_member-From archive m t t' here h d =
    elim (Bool-cases (is_empty (without_root (posix_path m.name).parts))) [
      | inl root ↦ subst (λ (x : Tree). All (From archive) x.files) (ok_inj (rw root at h)) d
      | inr below ↦ extract_kind-From archive m m.kind t t' here refl (rw below at h) d
    ]

extract_members-From :
    (archive ms : List Member) (t t' : Tree)
    → All (λ m. Has m archive) ms
    → extract_members ms t ≡ ok t'
    → All (From archive) t.files
    → All (From archive) t'.files
unfolding extract_members
extract_members-From archive [] t t' all h d =
    subst (λ (x : Tree). All (From archive) x.files) (ok_inj h) d
extract_members-From archive (m ∷ ms) t t' all h d =
    let (u, first, rest) = returned (extract_member m t) (λ x. extract_members ms x) h in
    extract_members-From archive ms u t' all.1 rest
      (extract_member-From archive m t u all.0 first d)

-- For any reading of manifests and any digest: an import that succeeds has verified the archive, found
-- no collection of its name, and written nothing but files of the archive, each with its content and
-- at its path below the root.
pub import_bundle-Verified :
    (decode : String → Decoded) (sha256 : String → String) (exists : String → Bool)
    (archive : List Member) (v : Verification) (t : Tree)
    → import_bundle decode sha256 exists archive ≡ ok (v, t)
    → Verified decode sha256 archive v × (exists v.collection ≡ false) × All (From archive) t.files
unfolding import_bundle
import_bundle-Verified decode sha256 exists archive v t h =
    let (w, verified, next) = returned (verify_bundle decode sha256 archive) _ h in
    let (free, more) = passed_guard (exists w.collection) destination_exists _ next in
    let (u, extracted, e) = returned (extract_members archive empty_tree) _ more in
    let same = ap (λ (p : Verification × Tree). p.0) (ok_inj e) in
    let tree = ap (λ (p : Verification × Tree). p.1) (ok_inj e) in
    (
      subst (Verified decode sha256 archive) same
          (verify_bundle-Verified decode sha256 archive w verified),
      subst (λ (x : Verification). exists x.collection ≡ false) same free,
      subst (λ (x : Tree). All (From archive) x.files) tree
          (extract_members-From archive archive empty_tree u
            (All-Has (λ m. Has m archive) archive (λ m p. p)) extracted tt),
    )
