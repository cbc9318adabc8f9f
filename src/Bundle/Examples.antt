-- ===== src/Bundle/Examples.antt =====
-- A bundle of two files, and a root with a baseline; the digest is the content itself.
use k8s_lab_vmware.Prelude.{
  ℕ, String, List, [], ◌∷◌, ◌≡◌, refl, Bool, true, false, Option, some, if◌then◌else◌, ◌==◌, mem,
  lookup, insert, split, join, has_prefix, All,
}
use k8s_lab_vmware.Prelude.Result.{ok, err, ◌>>=◌}
use k8s_lab_vmware.Bundle.{
  posix_path, safe_relative, id_chars, is_collection_id, Member, regular, directory, Entry,
  Manifest, Decoded, manifest, undecodable, inspect_member, inspect_members, inspect_bundle,
  expected_files, check_contents, Verification, verify_bundle, unsafe_path,
}
use k8s_lab_vmware.Bundle.Verified.{Verified, verify_bundle-Verified}
use k8s_lab_vmware.Bundle.Import.{
  Tree, empty_tree, beginnings, parent, make_directory, write_file, extract_member, extract_members,
  import_bundle,
}
use k8s_lab_vmware.Bundle.Import.Written.{From, import_bundle-Verified}
use k8s_lab_vmware.Bundle.Export.{SourcePath, file_member, Exported}
use k8s_lab_vmware.Bundle.Export.Paths.{IsName, no_slash, extract_member-file_member}
use k8s_lab_vmware.Bundle.Prune.{
  Directory, is_candidate, is_target, remove_each, prune, parse_age, age_from,
}
use k8s_lab_vmware.Bundle.Prune.Protected.{IsOld, prune-IsOld}

abbrev entry : String → ℕ → String → Option Entry
entry path size sha256 = some (record { path = path; size = some size; sha256 = sha256 })

abbrev listing : Manifest
listing = record {
  collection_id = "eks-1";
  files = entry "metadata.json" 2 "{}" ∷ entry "logs/./pods.json" 3 "[1]" ∷ [];
}

abbrev decode : String → Decoded
decode text = if text == "manifest" then manifest listing else undecodable

abbrev digest : String → String
digest s = s

abbrev file : String → ℕ → String → Member
file name size content = record { name = name; kind = regular; size = size; content = content }

abbrev archive : List Member
archive =
    record { name = "eks-1"; kind = directory; size = 0; content = "" }
    ∷ file "eks-1/bundle-manifest.json" 8 "manifest"
    ∷ file "eks-1/metadata.json" 2 "{}"
    ∷ file "eks-1/logs/pods.json" 3 "[1]"
    ∷ []

abbrev escaping : List Member
escaping = file "eks-1/../passwd" 1 "x" ∷ archive

escaping-refused : inspect_bundle decode escaping ≡ err (unsafe_path "eks-1/../passwd")
unfolding inspect_bundle inspect_members inspect_member safe_relative posix_path split mem
escaping-refused = refl

abbrev verified : Verification
verified = record {
  collection = "eks-1";
  expected =
      ("eks-1/metadata.json", record { path = "metadata.json"; size = some 2; sha256 = "{}" })
      ∷ (
        "eks-1/logs/pods.json",
        record { path = "logs/./pods.json"; size = some 3; sha256 = "[1]" },
      )
      ∷ [];
}

archive-verified : verify_bundle decode digest archive ≡ ok verified
unfolding verify_bundle inspect_bundle inspect_members inspect_member safe_relative posix_path split
    mem join insert lookup is_collection_id id_chars expected_files check_contents
archive-verified = refl

verify_bundle-Verified_example : Verified decode digest archive verified
verify_bundle-Verified_example =
    verify_bundle-Verified decode digest archive verified archive-verified

abbrev nothing_there : String → Bool
nothing_there name = false

abbrev tree : Tree
tree = record {
  files =
      ("bundle-manifest.json", "manifest")
      ∷ ("metadata.json", "{}")
      ∷ ("logs/pods.json", "[1]")
      ∷ [];
  directories = "logs" ∷ [];
}

archive-imported : import_bundle decode digest nothing_there archive ≡ ok (verified, tree)
unfolding import_bundle verify_bundle inspect_bundle inspect_members inspect_member safe_relative
    posix_path split mem join insert lookup is_collection_id id_chars expected_files check_contents
    extract_members extract_member make_directory write_file beginnings parent
archive-imported = refl

import_bundle-Verified_example :
    Verified decode digest archive verified
    × (nothing_there "eks-1" ≡ false)
    × All (From archive) tree.files
import_bundle-Verified_example =
    import_bundle-Verified decode digest nothing_there archive verified tree archive-imported

abbrev source : List String → Bool → String → SourcePath
source parts is_file content = record {
  parts = parts;
  is_symlink = false;
  is_file = is_file;
  size = 2;
  content = content;
}

abbrev paths : List SourcePath
paths =
    source (".cache" ∷ "x" ∷ []) true "x"
    ∷ source ("Kubeconfig" ∷ []) true "secret"
    ∷ source ("logs" ∷ []) false ""
    ∷ source ("logs" ∷ "run.LOG" ∷ []) true "log"
    ∷ source ("metadata.json" ∷ []) true "{}"
    ∷ []

abbrev encode : Manifest → String × ℕ
encode m = ("manifest", 8)

abbrev exported : Exported
exported = record {
  manifest = record { collection_id = "eks-1"; files = entry "metadata.json" 2 "{}" ∷ [] };
  files = 1;
  bytes = 2;
  archive = file "eks-1/bundle-manifest.json" 8 "manifest" ∷ file "eks-1/metadata.json" 2 "{}" ∷ [];
}

abbrev collection : String → ℕ → Bool → Directory
collection name created baseline = record {
  name = name;
  is_directory = true;
  is_symlink = false;
  created = some created;
  modified = 0;
  baseline = baseline;
}

abbrev root : List Directory
root =
    collection "eks-1" 100 false
    ∷ collection "eks-2" 100 true
    ∷ collection "eks-3" 9000 false
    ∷ collection "notes" 100 false
    ∷ []

abbrev in_place : String → Option String
in_place id = some id

root-pruned : (prune in_place 10000 3600 true false root).removed ≡ "eks-1" ∷ []
unfolding prune is_candidate remove_each has_prefix
root-pruned = refl

prune-IsOld_example :
    (◌≡◌ {A = Bool} true false → (prune in_place 10000 3600 true false root).removed ≡ [])
    × All
        (λ id. IsOld 10000 3600 false root id × (is_target (in_place id) ≡ true))
        (prune in_place 10000 3600 true false root).removed
prune-IsOld_example = prune-IsOld in_place 10000 3600 true false root

half_day : parse_age "12h" ≡ some 43200
unfolding parse_age age_from
half_day = refl

id-IsName : IsName "eks-1"
unfolding no_slash
id-IsName = record { slash = refl; not_empty = refl; not_dot = refl }

logs-IsName : IsName "logs"
unfolding no_slash
logs-IsName = record { slash = refl; not_empty = refl; not_dot = refl }

pods-IsName : IsName "pods.json"
unfolding no_slash
pods-IsName = record { slash = refl; not_empty = refl; not_dot = refl }

abbrev pods : SourcePath
pods = source ("logs" ∷ "pods.json" ∷ []) true "[1]"

extract_member-file_member_example : extract_member (file_member "eks-1" pods) empty_tree ≡ (
    make_directory (parent ("logs" ∷ "pods.json" ∷ [])) empty_tree
    >>= (λ t. write_file ("logs" ∷ "pods.json" ∷ []) "[1]" t))
extract_member-file_member_example =
    extract_member-file_member "eks-1" pods empty_tree id-IsName (logs-IsName, (pods-IsName, tt))
      refl
