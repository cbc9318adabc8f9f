-- ===== src/Bundle/Export.antt =====
-- `export_bundle` of tools/eks-assessment/src/collection_bundle.py: the files that it takes, the
-- manifest, and the members of the archive.
pub mod Contents
pub mod Paths
use Prim.Native.Char.{code}
use k8s_lab_vmware.Prelude.{
  ℕ, ◌+◌, String, List, [], ◌∷◌, map, Bool, true, false, not, ◌&&◌, ◌||◌, some, if◌then◌else◌, any,
  ltb, leb, nat_eq, length, has_prefix, join,
}
use k8s_lab_vmware.Prelude.Result.{Result, ok, ◌>>=◌, ◌>>◌, refuse}
use k8s_lab_vmware.Bundle.{
  max_files, max_uncompressed_bytes, regular, Member, Entry, Manifest, in_root, is_collection_id,
}

-- A path below the collection, in the order of `sorted`, with what the file system tells of it.
pub record SourcePath : Type 0 where
  pub parts : List String
  pub is_symlink : Bool
  pub is_file : Bool
  pub size : ℕ
  pub content : String

pub data ExportError : Type 0 where
  invalid_collection not_validated too_many_files too_large : ExportError
  symbolic_link : (path : String) → ExportError

-- `char.lower()` where that can be an ASCII letter: the Kelvin sign is the one letter besides A to Z.
abbrev pub lower : ℕ → ℕ
lower c = if leb 65 c && leb c 90 then c + 32 else if nat_eq c 8490 then 107 else c

-- `text.lower() == name`, for a name in small letters
unfoldable pub lower_is : String → (name : String) → Bool
lower_is String.[] String.[] = true
lower_is (String.◌∷◌ c s) (String.◌∷◌ d t) = nat_eq (lower (code c)) (code d) && lower_is s t
lower_is _ _ = false

abbrev pub name_of : List String → String
name_of [] = ""
name_of (part ∷ []) = part
name_of (part ∷ rest) = name_of rest

unfoldable pub has_dot : String → Bool
has_dot String.[] = false
has_dot (String.◌∷◌ c s) = nat_eq (code c) 46 || has_dot s

-- The part from the last dot on; none for a text without a dot.
unfoldable pub from_last_dot : String → String
unfolding has_dot
from_last_dot String.[] = ""
from_last_dot (String.◌∷◌ c s) =
    let rest = from_last_dot s in
    if has_dot s then rest else if nat_eq (code c) 46 then String.◌∷◌ c s else ""

-- `path.suffix`, of a name that does not start with a dot; a dot at the end gives none, which is
-- no excluded suffix either way.
abbrev pub suffix_of : String → String
suffix_of name = from_last_dot name

abbrev pub excluded_suffixes : List String
excluded_suffixes = ".log" ∷ ".pid" ∷ ".lock" ∷ ".tmp" ∷ []

abbrev pub excluded_names : List String
excluded_names = "bundle-manifest.json" ∷ "dashboard-token" ∷ "kubeconfig" ∷ []

unfoldable pub is_excluded : List String → Bool
unfolding from_last_dot lower_is
is_excluded parts =
    any (has_prefix ".") parts
    || (any (lower_is (name_of parts)) excluded_names
        || any (lower_is (suffix_of (name_of parts))) excluded_suffixes)

unfoldable pub export_files : List SourcePath → Result ExportError (List SourcePath)
unfolding is_excluded
export_files [] = ok []
export_files (p ∷ ps) = do
  refuse p.is_symlink (symbolic_link (join p.parts))
  rest ← export_files ps
  ok (if p.is_file && not (is_excluded p.parts) then p ∷ rest else rest)

-- The entries, with the sum of the sizes so far.
unfoldable pub entries_of :
    (sha256 : String → String) → (total : ℕ) → List SourcePath → Result ExportError (List Entry × ℕ)
entries_of sha256 total [] = ok ([], total)
entries_of sha256 total (p ∷ ps) = do
  refuse (ltb max_uncompressed_bytes (total + p.size)) too_large
  (entries, sum) ← entries_of sha256 (total + p.size) ps
  ok (record { path = join p.parts; size = some p.size; sha256 = sha256 p.content } ∷ entries, sum)

pub record Exported : Type 0 where
  pub manifest : Manifest
  pub files : ℕ
  pub bytes : ℕ
  pub archive : List Member

abbrev pub file_member : String → SourcePath → Member
file_member id p = record {
  name = in_root id (join p.parts);
  kind = regular;
  size = p.size;
  content = p.content;
}

-- The manifest's text as a member; its size is that of the text that `atomic_json` writes.
abbrev pub manifest_member : String → ℕ → String → Member
manifest_member id size text = record {
  name = in_root id "bundle-manifest.json";
  kind = regular;
  size = size;
  content = text;
}

-- The archive, less the entries of the directories. `validated` is the result of the contracts and of
-- the artifact validation; `encode` is the text of a manifest with its size.
unfoldable pub export_bundle :
    (sha256 : String → String) (encode : Manifest → String × ℕ) (id : String) (validated : Bool)
    → List SourcePath
    → Result ExportError Exported
unfolding export_files entries_of
export_bundle sha256 encode id validated paths = do
  refuse (not (is_collection_id id)) invalid_collection
  refuse (not validated) not_validated
  files ← export_files paths
  refuse (ltb max_files (length files)) too_many_files
  (entries, total) ← entries_of sha256 0 files
  let m : Manifest = record { collection_id = id; files = map some entries }
  ok (record {
    manifest = m;
    files = length entries;
    bytes = total;
    archive = manifest_member id (encode m).1 (encode m).0 ∷ map (file_member id) files;
  })
