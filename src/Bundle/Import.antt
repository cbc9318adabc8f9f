-- ===== src/Bundle/Import.antt =====
-- `import_bundle` of tools/eks-assessment/src/collection_bundle.py. The tree is the temporary
-- directory, which becomes the collection's if nothing fails.
pub mod Written
use k8s_lab_vmware.Prelude.{
  String, List, [], ◌∷◌, ◌++◌, Bool, if◌then◌else◌, mem, any, is_some, is_empty, Dict, lookup,
  insert, join,
}
use k8s_lab_vmware.Prelude.Result.{Result, ok, err, ◌>>=◌, ◌>>◌, refuse}
use k8s_lab_vmware.Bundle.{
  Kind, regular, directory, Member, Decoded, Error, unsupported_member, destination_exists, blocked,
  posix_path, Verification, verify_bundle,
}

-- Files by their path below the collection, and the directories made.
pub record Tree : Type 0 where
  pub files : Dict String
  pub directories : List String

abbrev pub empty_tree : Tree
empty_tree = record { files = []; directories = [] }

-- The paths of the parts `before ++ p` for each non-empty beginning `p` of the list.
unfoldable pub beginnings : (before : List String) → List String → List String
beginnings before [] = []
beginnings before (part ∷ rest) = join (before ++ part ∷ []) ∷ beginnings (before ++ part ∷ []) rest

unfoldable pub parent : List String → List String
parent [] = []
parent (part ∷ []) = []
parent (part ∷ rest) = part ∷ parent rest

abbrev pub without_root : List String → List String
without_root [] = []
without_root (root ∷ rest) = rest

-- `mkdir(parents=True, exist_ok=True)`, which fails where a file is in the way.
unfoldable pub make_directory : List String → Tree → Result Error Tree
unfolding beginnings
make_directory parts t = do
  refuse (any (λ p. is_some (lookup p t.files)) (beginnings [] parts)) (blocked (join parts))
  ok (record t { directories = t.directories ++ beginnings [] parts })

-- Opening a directory for writing fails.
unfoldable pub write_file : List String → String → Tree → Result Error Tree
write_file parts content t = do
  refuse (mem (join parts) t.directories) (blocked (join parts))
  ok (record t { files = insert (join parts) content t.files })

abbrev pub extract_kind : Kind → Member → List String → Tree → Result Error Tree
extract_kind directory m parts t = make_directory parts t
extract_kind regular m parts t = do
  t' ← make_directory (parent parts) t
  write_file parts m.content t'
extract_kind _ m parts t = err (unsupported_member m.name)

-- One round: the root itself is passed over.
unfoldable pub extract_member : Member → Tree → Result Error Tree
unfolding make_directory write_file parent
extract_member m t =
    let parts = without_root (posix_path m.name).parts in
    if is_empty parts then ok t else extract_kind m.kind m parts t

unfoldable pub extract_members : List Member → Tree → Result Error Tree
unfolding extract_member
extract_members [] t = ok t
extract_members (m ∷ ms) t = do t' ← extract_member m t; extract_members ms t'

-- `exists` tells whether the root has a collection of a name.
unfoldable pub import_bundle :
    (decode : String → Decoded) (sha256 : String → String) (exists : String → Bool)
    → List Member
    → Result Error (Verification × Tree)
unfolding extract_members
import_bundle decode sha256 exists archive = do
  v ← verify_bundle decode sha256 archive
  refuse (exists v.collection) destination_exists
  t ← extract_members archive empty_tree
  ok (v, t)
