-- ===== src/Regression/Findings/Last.antt =====
-- The finding that stands for an identity in a collection.
use k8s_lab_vmware.Prelude.{
  or_later, or_later_assoc, or_later-none, String, List, [], ◌∷◌, ◌≡◌, refl, ◌∙◌, ap, false, Option,
  none, some, if◌then◌else◌, ◌==◌, eq_iff, Dict, lookup, insert, lookup-insert, arith,
}
use k8s_lab_vmware.Regression.{Finding}
use k8s_lab_vmware.Regression.Findings.{finding_identity, findings_from, findings_of}

-- The last finding with that identity.
unfoldable pub last_with : (key : String) → List Finding → Option Finding
last_with key [] = none
last_with key (f ∷ fs) =
    or_later (if finding_identity f == key then some f else none) (last_with key fs)

-- What one finding does to the entry of a key.
found_round :
    (key : String) (f : Finding) (d : Dict Finding)
    → (key == "") ≡ false
    → lookup key (if finding_identity f == "" then d else insert (finding_identity f) f d)
      ≡ or_later (lookup key d) (if finding_identity f == key then some f else none)
found_round key f d named = ground (
  arith,
  lookup-insert (finding_identity f) key f d,
  eq_iff (finding_identity f) key,
  eq_iff (finding_identity f) "",
)

findings_from-last :
    (key : String) (d : Dict Finding) (fs : List Finding)
    → (key == "") ≡ false
    → lookup key (findings_from d fs) ≡ or_later (lookup key d) (last_with key fs)
unfolding findings_from last_with
findings_from-last key d [] named = refl
findings_from-last key d (f ∷ fs) named =
    let here = if finding_identity f == key then some f else none in
    let d' = if finding_identity f == "" then d else insert (finding_identity f) f d in
    findings_from-last key d' fs named
    ∙ ap (λ x. or_later x (last_with key fs)) (found_round key f d named)
    ∙ or_later_assoc (lookup key d) here (last_with key fs)

pub findings_of-last :
    (key : String) (fs : List Finding)
    → (key == "") ≡ false
    → lookup key (findings_of fs) ≡ last_with key fs
unfolding lookup
findings_of-last key fs named =
    findings_from-last key [] fs named ∙ or_later-none (last_with key fs)
