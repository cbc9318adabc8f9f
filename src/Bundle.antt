-- ===== src/Bundle.antt =====
-- tools/eks-assessment/src/collection_bundle.py: paths, archives, and their inspection and
-- verification. The children have export, import and pruning.
pub mod Members
pub mod Inspected
pub mod Expected
pub mod Verified
pub mod Import
pub mod Export
pub mod Prune
mod Examples
use Prim.Native.Char.{code}
use Prim.Native.String.{◌++◌ as text_append}
use k8s_lab_vmware.Prelude.{
  ℕ, ◌+◌, String, List, [], ◌∷◌, ◌++◌, map, Bool, true, false, not, ◌&&◌, ◌||◌, Option, none, some,
  if◌then◌else◌, ◌==◌, mem, keep, nat_eq, ltb, leb, length, is_empty, Dict, lookup, insert, split,
  join,
}
use k8s_lab_vmware.Prelude.Result.{Result, ok, err, ◌>>=◌, ◌>>◌, refuse}

abbrev pub max_files : ℕ
max_files = 10000

abbrev pub max_uncompressed_bytes : ℕ
max_uncompressed_bytes = 2147483648

-- A `PurePosixPath`: its parts, without the root of an absolute one.
pub record PosixPath : Type 0 where
  pub absolute : Bool
  pub parts : List String

abbrev pub starts_with_slash : String → Bool
starts_with_slash String.[] = false
starts_with_slash (String.◌∷◌ c s) = nat_eq (code c) 47

-- Empty parts and `.` are dropped.
unfoldable pub posix_path : String → PosixPath
posix_path name = record {
  absolute = starts_with_slash name;
  parts = keep (λ part. not (part == "") && not (part == ".")) (split name);
}

-- `path.as_posix()` of a path that is not absolute and has a part.
abbrev pub as_posix : PosixPath → String
as_posix p = join p.parts

unfoldable pub safe_relative : PosixPath → Bool
safe_relative p =
    not (is_empty p.parts) && not p.absolute && not (mem ".." p.parts) && not (mem "" p.parts)

abbrev pub id_char : ℕ → Bool
id_char c =
    (leb 65 c && leb c 90)
    || (leb 97 c && leb c 122)
    || (leb 48 c && leb c 57)
    || nat_eq c 46
    || nat_eq c 95
    || nat_eq c 45

unfoldable pub id_chars : String → Bool
id_chars String.[] = true
id_chars (String.◌∷◌ c s) = id_char (code c) && id_chars s

-- `COLLECTION_ID.fullmatch(name)`
unfoldable pub is_collection_id : String → Bool
unfolding id_chars
is_collection_id name = not (name == "") && id_chars name

-- `special` is a device or a FIFO, `unknown` a type that tarfile does not know.
pub data Kind : Type 0 where
  regular directory symbolic_link hard_link special unknown : Kind

pub record Member : Type 0 where
  pub name : String
  pub kind : Kind
  pub size : ℕ
  pub content : String

-- An entry of the manifest's files; a missing size is none, and an entry that is no object invalid.
pub record Entry : Type 0 where
  pub path : String
  pub size : Option ℕ
  pub sha256 : String

pub record Manifest : Type 0 where
  pub collection_id : String
  pub files : List (Option Entry)

-- The manifest's bytes as JSON, checked by its schema.
pub data Decoded : Type 0 where
  undecodable off_contract : Decoded
  manifest : Manifest → Decoded

pub data Error : Type 0 where
  too_many_entries too_large one_root invalid_root no_manifest : Error
  unsafe_path unsupported_member : (name : String) → Error
  invalid_manifest manifest_contract : Error
  invalid_id invalid_entry : Error
  unsafe_manifest_path : (path : String) → Error
  file_set : (missing extra : List String) → Error
  size_mismatch checksum_mismatch : (name : String) → Error
  destination_exists : Error
  blocked : (path : String) → Error

abbrev pub is_unsupported : Kind → Bool
is_unsupported symbolic_link = true
is_unsupported hard_link = true
is_unsupported special = true
is_unsupported _ = false

abbrev pub is_regular : Kind → Bool
is_regular regular = true
is_regular _ = false

-- `roots.add(root)`
abbrev pub add_root : String → List String → List String
add_root root roots = if mem root roots then roots else roots ++ root ∷ []

abbrev pub first_part : List String → String
first_part [] = ""
first_part (part ∷ rest) = part

-- What the loop over the members has found.
pub record Found : Type 0 where
  pub total : ℕ
  pub roots : List String
  pub members : Dict Member

abbrev pub nothing_found : Found
nothing_found = record { total = 0; roots = []; members = [] }

abbrev pub with_member : Member → Found → Found
with_member m f = record f {
  total = f.total + m.size;
  members = insert (as_posix (posix_path m.name)) m f.members;
}

-- One round of the loop.
unfoldable pub inspect_member : Member → Found → Result Error Found
unfolding safe_relative
inspect_member m f = do
  refuse (not (safe_relative (posix_path m.name))) (unsafe_path m.name)
  let seen = record f { roots = add_root (first_part (posix_path m.name).parts) f.roots }
  refuse (is_unsupported m.kind) (unsupported_member m.name)
  if is_regular m.kind
      then (if ltb max_uncompressed_bytes (f.total + m.size)
          then err too_large
          else ok (with_member m seen))
      else ok seen

unfoldable pub inspect_members : List Member → Found → Result Error Found
unfolding inspect_member
inspect_members [] f = ok f
inspect_members (m ∷ ms) f = do f' ← inspect_member m f; inspect_members ms f'

abbrev pub only_root : List String → Result Error String
only_root (root ∷ []) = ok root
only_root _ = err one_root

abbrev pub read_manifest : (String → Decoded) → Option Member → Result Error Manifest
read_manifest decode none = err no_manifest
read_manifest decode (some m) = elim (decode m.content) [
  | undecodable ↦ err invalid_manifest
  | off_contract ↦ err manifest_contract
  | manifest v ↦ ok v
]

abbrev pub in_root : String → String → String
in_root root name = text_append root (text_append "/" name)

-- `decode`, a parameter, reads the manifest and validates it against its schema.
unfoldable pub inspect_bundle :
    (decode : String → Decoded) → List Member → Result Error (Manifest × Dict Member)
unfolding inspect_members is_collection_id
inspect_bundle decode archive = do
  refuse (ltb (max_files + 100) (length archive)) too_many_entries
  found ← inspect_members archive nothing_found
  root ← only_root found.roots
  refuse (not (is_collection_id root)) invalid_root
  m ← read_manifest decode (lookup (in_root root "bundle-manifest.json") found.members)
  ok (m, found.members)

-- The dictionary `expected`.
unfoldable pub expected_files :
    String → Dict Entry → List (Option Entry) → Result Error (Dict Entry)
unfolding safe_relative
expected_files id d [] = ok d
expected_files id d (none ∷ rest) = err invalid_entry
expected_files id d (some e ∷ rest) = do
  refuse (not (safe_relative (posix_path e.path))) (unsafe_manifest_path e.path)
  expected_files id (insert (in_root id (as_posix (posix_path e.path))) e d) rest

abbrev pub keys {ℓ} : {V : Type ℓ} → Dict V → List String
keys d = map (λ p. p.0) d

abbrev pub not_in : List String → List String → List String
not_in ys xs = keep (λ x. not (mem x ys)) xs

abbrev pub same_size : Option ℕ → ℕ → Bool
same_size none n = false
same_size (some m) n = nat_eq n m

module _ (sha256 : String → String) where
  -- A member that is expected is there, as the sets of names are equal.
  abbrev pub check_content : String → Entry → Option Member → Result Error (Unit {0})
  check_content name e none = err (size_mismatch name)
  check_content name e (some m) = do
    refuse (not (same_size e.size m.size)) (size_mismatch name)
    refuse (not (sha256 m.content == e.sha256)) (checksum_mismatch name)

  unfoldable pub check_contents : Dict Member → Dict Entry → Result Error (Unit {0})
  check_contents members [] = ok tt
  check_contents members ((name, e) ∷ rest) = do
    check_content name e (lookup name members)
    check_contents members rest

pub record Verification : Type 0 where
  pub collection : String
  pub expected : Dict Entry

abbrev pub verification : String → Dict Entry → Verification
verification collection expected = record { collection = collection; expected = expected }

unfoldable pub verify_bundle :
    (decode : String → Decoded) (sha256 : String → String) → List Member → Result Error Verification
unfolding expected_files check_contents
verify_bundle decode sha256 archive = do
  (m, members) ← inspect_bundle decode archive
  let id = m.collection_id
  refuse (not (is_collection_id id)) invalid_id
  expected ← expected_files id [] m.files
  let actual = keep (λ name. not (name == in_root id "bundle-manifest.json")) (keys members)
  let missing = not_in actual (keys expected)
  let extra = not_in (keys expected) actual
  refuse (not (is_empty missing && is_empty extra)) (file_set missing extra)
  check_contents sha256 members expected
  ok (verification id expected)
