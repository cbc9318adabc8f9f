-- ===== src/Bundle/Export/Paths.antt =====
-- The path under which a file is exported leads the import back to the file's own path.
use Prim.Native.Char.{Char, code}
use Prim.Native.String.{◌++◌ as text_append}
use Prim.Native.String.append
use k8s_lab_vmware.Prelude.{
  String, List, [], ◌∷◌, ◌≡◌, refl, ap, ◌∙◌, Bool, true, false, not, ◌&&◌, if◌then◌else◌, ◌==◌,
  keep, is_empty, All, split, on_first, join, nat_eq, arith, Bool-cases, inl, inr,
}
use k8s_lab_vmware.Prelude.Result.{Result, ok, ◌>>=◌}
use k8s_lab_vmware.Bundle.{regular, Error, posix_path, in_root}
use k8s_lab_vmware.Bundle.Import.{
  Tree, without_root, extract_kind, extract_member, make_directory, write_file, parent,
}
use k8s_lab_vmware.Bundle.Export.{SourcePath, file_member}

unfoldable pub no_slash : String → Bool
no_slash String.[] = true
no_slash (String.◌∷◌ c s) = not (nat_eq (code c) 47) && no_slash s

-- A name of a file or directory, as a file system has it.
pub record IsName (part : String) : Type 0 where
  pub slash : no_slash part ≡ true
  pub not_empty : (part == "") ≡ false
  pub not_dot : (part == ".") ≡ false

split-one : (part : String) → no_slash part ≡ true → split part ≡ part ∷ []
unfolding split no_slash
split-one String.[] h = refl
split-one (String.◌∷◌ c s) h = elim (Bool-cases (nat_eq (code c) 47)) [
  | inl e ↦ absurd (ground (arith, e, h))
  | inr e ↦ rw e (ap (λ x. on_first (λ p. String.◌∷◌ c p) x) (split-one s (ground (arith, e, h))))
]

append_nil : (t : String) → text_append String.[] t ≡ t
append_nil t = λ i. append.nil t i

append_cons :
    (c : Char) (s t : String) → text_append (String.◌∷◌ c s) t ≡ String.◌∷◌ c (text_append s t)
append_cons c s t = λ i. append.cons c s t i

slash-append : (rest : String) → text_append "/" rest ≡ String.◌∷◌ "/" rest
slash-append rest = append_cons "/" String.[] rest ∙ ap (λ x. String.◌∷◌ "/" x) (append_nil rest)

split-slash :
    (part rest : String)
    → no_slash part ≡ true
    → split (text_append part (text_append "/" rest)) ≡ part ∷ split rest
unfolding split no_slash
split-slash String.[] rest h =
    ap split (append_nil (text_append "/" rest) ∙ slash-append rest) ∙ refl
split-slash (String.◌∷◌ c s) rest h = elim (Bool-cases (nat_eq (code c) 47)) [
  | inl e ↦ absurd (ground (arith, e, h))
  | inr e ↦
      ap split (append_cons c s (text_append "/" rest))
      ∙ rw e
          (ap (λ x. on_first (λ p. String.◌∷◌ c p) x) (split-slash s rest (ground (arith, e, h))))
]

split-join :
    (part : String) (parts : List String)
    → All IsName (part ∷ parts)
    → split (join (part ∷ parts)) ≡ part ∷ parts
unfolding join
split-join part [] h = split-one part h.0.slash
split-join part (next ∷ rest) h =
    split-slash part (join (next ∷ rest)) h.0.slash ∙ ap (λ x. part ∷ x) (split-join next rest h.1)

keep-names :
    (parts : List String)
    → All IsName parts
    → keep (λ part. not (part == "") && not (part == ".")) parts ≡ parts
keep-names [] h = refl
keep-names (part ∷ parts) h =
    rw (h.0.not_empty, h.0.not_dot) (ap (λ x. part ∷ x) (keep-names parts h.1))

parts_of :
    (id part : String) (parts : List String)
    → IsName id
    → All IsName (part ∷ parts)
    → (posix_path (in_root id (join (part ∷ parts)))).parts ≡ id ∷ part ∷ parts
unfolding posix_path
parts_of id part parts n h =
    ap (keep (λ x. not (x == "") && not (x == ".")))
      (split-slash id (join (part ∷ parts)) n.slash ∙ ap (λ x. id ∷ x) (split-join part parts h))
    ∙ keep-names (id ∷ part ∷ parts) (n, h)

module _ (id : String) (p : SourcePath) (t : Tree) (n : IsName id) where
  abbrev extracted_at : List String → Result Error Tree
  extracted_at parts =
      if is_empty (without_root parts)
      then ok t
      else extract_kind regular (file_member id p) (without_root parts) t

  written :
      (parts : List String)
      → All IsName parts
      → is_empty parts ≡ false
      → extracted_at (posix_path (in_root id (join parts))).parts
        ≡ (make_directory (parent parts) t >>= (λ t'. write_file parts p.content t'))
  written [] h full = cc
  written (part ∷ parts) h full = ap extracted_at (parts_of id part parts n h)

-- For any collection whose id is a name, and any file whose path is made of names: importing the
-- member that export writes for the file makes the directories above its path and writes its content
-- at that path.
pub extract_member-file_member :
    (id : String) (p : SourcePath) (t : Tree)
    → IsName id
    → All IsName p.parts
    → is_empty p.parts ≡ false
    → extract_member (file_member id p) t
      ≡ (make_directory (parent p.parts) t >>= (λ t'. write_file p.parts p.content t'))
unfolding extract_member
extract_member-file_member id p t n h full = written id p t n p.parts h full
