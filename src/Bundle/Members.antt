-- ===== src/Bundle/Members.antt =====
-- The dictionary of the files that the inspection of an archive collects.
use k8s_lab_vmware.Prelude.{
  All-insert, All-Has, String, List, [], ◌∷◌, ◌≡◌, inl, inr, subst, refl, ◌∙◌, Bool, true, false,
  not, some, ◌==◌, Dict, lookup, insert, lookup-insert, arith, All, Has, eq_iff, Bool-cases,
}
use k8s_lab_vmware.Prelude.Result.{ok, ok_inj, returned, passed_guard}
use k8s_lab_vmware.Bundle.{
  posix_path, as_posix, safe_relative, Member, is_unsupported, is_regular, Found, nothing_found,
  inspect_member, inspect_members, unsafe_path, unsupported_member,
}

abbrev pub key_of : Member → String
key_of m = as_posix (posix_path m.name)

-- A member of the dictionary is one of the archive, under its own name.
abbrev pub Listed : List Member → String × Member → Type 0
Listed archive (name, m) = Has m archive × (name ≡ key_of m)

abbrev pub IsKey : Dict Member → String → Type 0
IsKey d name = (w : Member) × (lookup name d ≡ some w)

IsKey-insert : (k j : String) (v : Member) (d : Dict Member) → IsKey d j → IsKey (insert k v d) j
IsKey-insert k j v d (w, e) = elim (Bool-cases (k == j)) [
  | inl same ↦ (v, lookup-insert k j v d ∙ rw same refl)
  | inr other ↦ (w, lookup-insert k j v d ∙ rw other e)
]

IsKey-insert_self : (k : String) (v : Member) (d : Dict Member) → IsKey (insert k v d) k
IsKey-insert_self k v d = (v, lookup-insert k k v d ∙ ground (arith, eq_iff k k))

-- One round: the dictionary after it, in terms of the one before.
data Round (m : Member) (f f' : Found) : Type 0 where
  kept : is_regular m.kind ≡ false → f'.members ≡ f.members → Round m f f'
  added : f'.members ≡ insert (key_of m) m f.members → Round m f f'

inspect_member-Round : (m : Member) (f f' : Found) → inspect_member m f ≡ ok f' → Round m f f'
unfolding inspect_member
inspect_member-Round m f f' h =
    let (safe, next) =
      passed_guard (not (safe_relative (posix_path m.name))) (unsafe_path m.name) _ h in
    let (allowed, last) = passed_guard (is_unsupported m.kind) (unsupported_member m.name) _ next in
    elim (Bool-cases (is_regular m.kind)) [
      | inl file ↦ added (ground arith)
      | inr other ↦ kept other (ground arith)
    ]

Round-All :
    (P : String × Member → Type 0) (m : Member) (f f' : Found)
    → Round m f f'
    → P (key_of m, m)
    → All P f.members
    → All P f'.members
Round-All P m f f' (kept other e) p h = rw e h
Round-All P m f f' (added e) p h = rw e (All-insert P (key_of m) m f.members h p)

Round-IsKey :
    (m : Member) (f f' : Found)
    → Round m f f'
    → (j : String) → IsKey f.members j
    → IsKey f'.members j
Round-IsKey m f f' (kept other e) j h = rw e h
Round-IsKey m f f' (added e) j h = rw e (IsKey-insert (key_of m) j m f.members h)

Round-IsKey_self :
    (m : Member) (f f' : Found)
    → Round m f f'
    → is_regular m.kind ≡ true
    → IsKey f'.members (key_of m)
Round-IsKey_self m f f' (kept other e) file = absurd (both_ne file other)
  where
    both_ne : {b : Bool} → b ≡ true → b ≡ false → ⊥
    both_ne p q = cc
Round-IsKey_self m f f' (added e) file = rw e (IsKey-insert_self (key_of m) m f.members)

inspect_members-All :
    (P : String × Member → Type 0) (ms : List Member) (f f' : Found)
    → inspect_members ms f ≡ ok f'
    → All (λ m. P (key_of m, m)) ms
    → All P f.members
    → All P f'.members
unfolding inspect_members
inspect_members-All P [] f f' h p d = subst (λ (x : Found). All P x.members) (ok_inj h) d
inspect_members-All P (m ∷ ms) f f' h p d =
    let (g, first, rest) = returned (inspect_member m f) (λ x. inspect_members ms x) h in
    inspect_members-All P ms g f' rest p.1
      (Round-All P m f g (inspect_member-Round m f g first) p.0 d)

inspect_members-IsKey_kept :
    (ms : List Member) (f f' : Found)
    → inspect_members ms f ≡ ok f'
    → (j : String) → IsKey f.members j
    → IsKey f'.members j
unfolding inspect_members
inspect_members-IsKey_kept [] f f' h j k = subst (λ (x : Found). IsKey x.members j) (ok_inj h) k
inspect_members-IsKey_kept (m ∷ ms) f f' h j k =
    let (g, first, rest) = returned (inspect_member m f) (λ x. inspect_members ms x) h in
    inspect_members-IsKey_kept ms g f' rest j
      (Round-IsKey m f g (inspect_member-Round m f g first) j k)

-- Every file of the archive is in the dictionary.
pub inspect_members-IsKey :
    (ms : List Member) (f f' : Found)
    → inspect_members ms f ≡ ok f'
    → All (λ m. is_regular m.kind ≡ true → IsKey f'.members (key_of m)) ms
unfolding inspect_members
inspect_members-IsKey [] f f' h = tt
inspect_members-IsKey (m ∷ ms) f f' h =
    let (g, first, rest) = returned (inspect_member m f) (λ x. inspect_members ms x) h in
    (
      λ file.
          inspect_members-IsKey_kept ms g f' rest (key_of m)
            (Round-IsKey_self m f g (inspect_member-Round m f g first) file),
      inspect_members-IsKey ms g f' rest,
    )

-- The dictionary has members of the archive only.
pub inspect_members-Listed :
    (archive : List Member) (f' : Found)
    → inspect_members archive nothing_found ≡ ok f'
    → All (Listed archive) f'.members
inspect_members-Listed archive f' h =
    inspect_members-All (Listed archive) archive nothing_found f' h
      (All-Has (λ m. Listed archive (key_of m, m)) archive (λ m p. (p, refl))) tt
