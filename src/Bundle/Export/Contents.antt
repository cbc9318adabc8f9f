-- ===== src/Bundle/Export/Contents.antt =====
-- What an exported bundle holds.
use k8s_lab_vmware.Prelude.{
  ℕ, ◌≤◌, String, List, [], ◌∷◌, map, ◌≡◌, true, false, some, length, sum_by, join, any, has_prefix,
}
use k8s_lab_vmware.Bundle.{max_files, max_uncompressed_bytes, Manifest}
use k8s_lab_vmware.Bundle.Export.{
  manifest_member, SourcePath, name_of, from_last_dot, lower_is, Exported, file_member,
}

-- A file that may leave the machine: no part of its path is hidden, and its name is, in small
-- letters, none of three and has none of four endings.
pub record IsPortable (p : SourcePath) : Type 0 where
  pub file : p.is_file ≡ true
  pub visible : any (has_prefix ".") p.parts ≡ false
  pub no_manifest : lower_is (name_of p.parts) "bundle-manifest.json" ≡ false
  pub no_token : lower_is (name_of p.parts) "dashboard-token" ≡ false
  pub no_kubeconfig : lower_is (name_of p.parts) "kubeconfig" ≡ false
  pub no_log : lower_is (from_last_dot (name_of p.parts)) ".log" ≡ false
  pub no_pid : lower_is (from_last_dot (name_of p.parts)) ".pid" ≡ false
  pub no_lock : lower_is (from_last_dot (name_of p.parts)) ".lock" ≡ false
  pub no_tmp : lower_is (from_last_dot (name_of p.parts)) ".tmp" ≡ false

-- The paths of the first list that are portable make up the second, in their order, and no path is a
-- link.
pub data Selection : List SourcePath → List SourcePath → Type 0 where
  done : Selection [] []
  taken :
      (p : SourcePath) (ps files : List SourcePath)
      → p.is_symlink ≡ false
      → IsPortable p
      → Selection ps files
      → Selection (p ∷ ps) (p ∷ files)
  left :
      (p : SourcePath) (ps files : List SourcePath)
      → p.is_symlink ≡ false
      → ¬ IsPortable p
      → Selection ps files
      → Selection (p ∷ ps) files

-- What is exported: the portable files and no other, each listed in the manifest and held by the
-- archive, in the same order, within the limits.
pub record IsExport (sha256 : String → String) (encode : Manifest → String × ℕ) (id : String)
    (paths : List SourcePath) (x : Exported) : Type 0 where
  pub files : List SourcePath
  pub selected : Selection paths files
  pub few : length files ≤ max_files
  pub entries :
      x.manifest.files
      ≡ map some (
          map
            (λ (p : SourcePath). record {
              path = join p.parts;
              size = some p.size;
              sha256 = sha256 p.content;
            })
            files)
  pub bytes : x.bytes ≡ sum_by (λ (p : SourcePath). p.size) files
  pub small : x.bytes ≤ max_uncompressed_bytes
  pub identity : x.manifest.collection_id ≡ id
  pub archived :
      x.archive
      ≡ manifest_member id (encode x.manifest).1 (encode x.manifest).0 ∷ map (file_member id) files
