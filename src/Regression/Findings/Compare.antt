-- ===== src/Regression/Findings/Compare.antt =====
-- The comparison of the findings of two collections.
use k8s_lab_vmware.Prelude.{
  ◌<◌, String, List, [], ◌∷◌, ◌≡◌, refl, sym, true, false, Option, none, some, some_inj, ◌==◌,
  eq_iff, Dict, lookup, insert, lookup-insert, lt→ltb, All, Has, Has-append_left, Has-append_right,
  arith, Bool-cases, inl, inr, subst, ◌∙◌,
}
use k8s_lab_vmware.Regression.{Finding, Collection, Severity}
use k8s_lab_vmware.Regression.Findings.Last.{last_with, findings_of-last}
use k8s_lab_vmware.Regression.Findings.{
  rank, is_risk, is_gap, finding_identity, findings_from, findings_of, safe_change, Change,
  new_risk, severity_regression, evidence_loss, new_risks_of, regressions_of, losses_of,
  resolved_of, each_item, findings_delta,
}

-- A dictionary has each key once.
abbrev IsDict : Dict Finding → Type 0
IsDict [] = Unit
IsDict ((k, v) ∷ d) = (lookup k d ≡ none) × IsDict d

insert-IsDict : (k : String) (v : Finding) (d : Dict Finding) → IsDict d → IsDict (insert k v d)
unfolding insert lookup
insert-IsDict k v [] u = (refl, tt)
insert-IsDict k v ((j, w) ∷ d) u = elim (Bool-cases (j == k)) [
  | inl e ↦ rw e u
  | inr e ↦
      rw e (
        ground (arith, lookup-insert k j v d, eq_iff k j, eq_iff j k, u.0),
        insert-IsDict k v d u.1,
      )
]

findings_from-IsDict :
    (d : Dict Finding) (fs : List Finding) → IsDict d → IsDict (findings_from d fs)
unfolding findings_from
findings_from-IsDict d [] u = u
findings_from-IsDict d (f ∷ fs) u = elim (Bool-cases (finding_identity f == "")) [
  | inl e ↦ rw e (findings_from-IsDict d fs u)
  | inr e ↦ rw e (
      findings_from-IsDict (insert (finding_identity f) f d) fs
        (insert-IsDict (finding_identity f) f d u))
]

-- Each item of the dictionary is found under its key.
found_each :
    (full d : Dict Finding)
    → IsDict d
    → ((k : String) (v : Finding) → lookup k d ≡ some v → lookup k full ≡ some v)
    → All (λ (p : String × Finding). lookup p.0 full ≡ some p.1) d
unfolding lookup
found_each full [] u h = tt
found_each full ((k, v) ∷ d) u h = (
  h k v (ground (arith, eq_iff k k)),
  found_each full d u.1 (λ j w p. h j w (ground (arith, eq_iff k j, u.0))),
)

each_item-nil :
    (visit : Option Finding → Finding → List Change) (full d : Dict Finding)
    → All (λ (p : String × Finding). lookup p.0 full ≡ some p.1) d
    → ((f : Finding) → visit (some f) f ≡ [])
    → each_item visit full d ≡ []
unfolding each_item
each_item-nil visit full [] h quiet = refl
each_item-nil visit full ((k, v) ∷ d) h quiet =
    rw (h.0, quiet v) (each_item-nil visit full d h.1 quiet)

quiet_regressions : (f : Finding) → regressions_of (some f) f ≡ []
unfolding regressions_of
quiet_regressions f = ground arith

quiet_losses : (f : Finding) → losses_of (some f) f ≡ []
unfolding losses_of
quiet_losses f = ground arith

quiet_resolved : (f : Finding) → resolved_of (some f) f ≡ []
unfolding resolved_of
quiet_resolved f = ground arith

-- Two collections with the same findings, whatever these are: no new risk, no severity
-- regression, no evidence loss and no resolved risk is reported.
pub findings_delta_same :
    (before after : Collection)
    → after.findings ≡ before.findings
    → ((findings_delta before after).new_risks ≡ [])
      × ((findings_delta before after).severity_regressions ≡ [])
      × ((findings_delta before after).evidence_loss ≡ [])
      × ((findings_delta before after).resolved_risks ≡ [])
unfolding findings_delta
findings_delta_same before after e =
    let d = findings_of before.findings in
    let found = found_each d d (findings_from-IsDict [] before.findings tt) (λ k v p. p) in
    rw e (
      each_item-nil new_risks_of d d found (λ f. unfold new_risks_of in refl),
      each_item-nil regressions_of d d found quiet_regressions,
      each_item-nil losses_of d d found quiet_losses,
      each_item-nil resolved_of d d found quiet_resolved,
    )

-- What the loop appends for an item is in its list.
each_item-Has :
    (visit : Option Finding → Finding → List Change) (others d : Dict Finding) (k : String)
    (v : Finding) (c : Change)
    → lookup k d ≡ some v
    → Has c (visit (lookup k others) v)
    → Has c (each_item visit others d)
unfolding each_item lookup
each_item-Has visit others [] k v c p h = cc
each_item-Has visit others ((j, w) ∷ d) k v c p h = elim (Bool-cases (j == k)) [
  | inl e ↦ Has-append_left c (visit (lookup j others) w) (each_item visit others d) (
      subst (λ z. Has c (visit (lookup z others) w)) (sym ((eq_iff j k).0 e))
        (subst (λ z. Has c (visit (lookup k others) z)) (sym (some_inj (rw e at p))) h))
  | inr e ↦
      Has-append_right c (visit (lookup j others) w) (each_item visit others d)
        (each_item-Has visit others d k v c (rw e at p) h)
]

risk_or_gap : (severity : Severity) → is_gap severity ≡ true → is_risk severity ≡ false
risk_or_gap severity h = ground arith

-- For every current finding that has an identity and is the last of its collection with it, against
-- the last earlier finding with that identity: without an earlier one, a risk is listed as a new
-- risk and a gap in the evidence as an evidence loss; with one, a finding of a higher rank is listed
-- as a severity regression, and a gap in the evidence that was none before as an evidence loss.
pub findings_delta_complete :
    (before after : Collection) (item : Finding)
    → (finding_identity item == "") ≡ false
    → last_with (finding_identity item) after.findings ≡ some item
    → (last_with (finding_identity item) before.findings ≡ none
        → (is_risk item.severity ≡ true
            → Has (safe_change new_risk item none) (findings_delta before after).new_risks)
          × (is_gap item.severity ≡ true
              → Has
                  (safe_change evidence_loss item none)
                  (findings_delta before after).evidence_loss))
      × ((previous : Finding)
          → last_with (finding_identity item) before.findings ≡ some previous
          → (rank previous.severity < rank item.severity
              → Has
                  (safe_change severity_regression item (some previous.severity))
                  (findings_delta before after).severity_regressions)
            × (is_gap item.severity ≡ true
                → is_gap previous.severity ≡ false
                → Has
                    (safe_change evidence_loss item (some previous.severity))
                    (findings_delta before after).evidence_loss))
unfolding findings_delta
findings_delta_complete before after item named last =
    let key = finding_identity item in
    let old = findings_of before.findings in
    let new = findings_of after.findings in
    let p = findings_of-last key after.findings named ∙ last in
    let earlier = findings_of-last key before.findings named in
    (
      λ absent. (
        λ risk.
            each_item-Has new_risks_of old new key item (safe_change new_risk item none) p
              (unfold new_risks_of in rw (earlier ∙ absent, risk) (inl refl)),
        λ gap. each_item-Has losses_of old new key item (safe_change evidence_loss item none) p (
            unfold losses_of in
            rw (earlier ∙ absent, risk_or_gap item.severity gap, gap) (inl refl)),
      ),
      λ previous found. (
        λ lower.
            each_item-Has regressions_of old new key item
              (safe_change severity_regression item (some previous.severity)) p
              (unfold regressions_of in rw (earlier ∙ found, lt→ltb _ _ lower) (inl refl)),
        λ gap none_before.
            each_item-Has losses_of old new key item
              (safe_change evidence_loss item (some previous.severity)) p
              (unfold losses_of in rw (earlier ∙ found, gap, none_before) (inl refl)),
      ),
    )
