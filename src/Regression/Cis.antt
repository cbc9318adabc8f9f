-- ===== src/Regression/Cis.antt =====
-- `compare_reports` of tools/eks-assessment/src/cis_security_assessment.py, and `cis_gate` of
-- tools/eks-assessment/src/regression_validation.py.
use Prim.Native.String.{compare}
use Prim.Native.Nat.{Ordering}
use k8s_lab_vmware.Prelude.{
  ℕ, ◌-◌, String, List, [], ◌∷◌, ◌++◌, map, Bool, true, false, not, ◌&&◌, ◌||◌, Option, none, some,
  if◌then◌else◌, ◌==◌, Dict, lookup, insert, minus, ltb, count, is_empty,
}
use k8s_lab_vmware.Prelude.Int.{ℤ, sub_ℕ}
use k8s_lab_vmware.Regression.{
  Control, CisReport, Collection, Status, passed, failed, warned, Gate, gate,
}
use k8s_lab_vmware.Regression.Policy.{Thresholds}

-- `sorted` on texts
unfoldable pub insert_sorted : String → List String → List String
insert_sorted x [] = x ∷ []
insert_sorted x (y ∷ ys) = elim (compare x y) [
  | Ordering.gt ↦ y ∷ insert_sorted x ys
  | _ ↦ x ∷ y ∷ ys
]

unfoldable pub sorted : List String → List String
unfolding insert_sorted
sorted [] = []
sorted (x ∷ xs) = insert_sorted x (sorted xs)

pub data ControlKind : Type 0 where
  new_control removed_control evidence_loss coverage_gain resolved regression : ControlKind
  responsibility_change status_change : ControlKind

pub record ControlChange : Type 0 where
  pub control_id : String
  pub kind : ControlKind
  pub before : Option Control
  pub after : Option Control

unfoldable pub controls_from : Dict Control → List Control → Dict Control
controls_from d [] = d
controls_from d (c ∷ cs) = controls_from (insert c.control_id c d) cs

-- `applicability in {"EVIDENCE_UNAVAILABLE", "MANUAL_REVIEW"}`
abbrev pub needs_review : Control → Bool
needs_review c = c.applicability == "EVIDENCE_UNAVAILABLE" || c.applicability == "MANUAL_REVIEW"

abbrev pub is_applicable : Control → Bool
is_applicable c = c.applicability == "APPLICABLE"

-- The kind of a change; `none` is the `continue` of the loop.
unfoldable pub change_kind : Option Control → Option Control → Option ControlKind
change_kind none current = some new_control
change_kind (some previous) none = some removed_control
change_kind (some previous) (some current) =
    if is_applicable previous && needs_review current
    then some evidence_loss
    else if needs_review previous && is_applicable current
    then some coverage_gain
    else if previous.status == "WARN" && current.status == "PASS"
    then some resolved
    else if previous.status == "PASS" && current.status == "WARN"
    then some regression
    else if not (previous.applicability == current.applicability)
        || not (previous.responsibility == current.responsibility)
    then some responsibility_change
    else if not (previous.status == current.status)
    then some status_change
    else none

abbrev pub change_of :
    String → Option Control → Option Control → Option ControlKind → List ControlChange
change_of id before after none = []
change_of id before after (some kind) =
    record { control_id = id; kind = kind; before = before; after = after } ∷ []

unfoldable pub changes_at : Dict Control → Dict Control → List String → List ControlChange
unfolding change_kind
changes_at old new [] = []
changes_at old new (id ∷ rest) =
    change_of id (lookup id old) (lookup id new) (change_kind (lookup id old) (lookup id new))
    ++ changes_at old new rest

abbrev pub keys : Dict Control → List String
keys d = map (λ (p : String × Control). p.0) d

pub record CisDelta : Type 0 where
  pub posture_delta : ℤ
  pub coverage_delta : ℤ
  pub changes : List ControlChange

unfoldable pub compare_reports : CisReport → CisReport → CisDelta
unfolding changes_at
compare_reports before after =
    let old = controls_from [] before.controls in
    let new = controls_from [] after.controls in
    record {
      posture_delta = sub_ℕ after.posture before.posture;
      coverage_delta = sub_ℕ after.coverage before.coverage;
      changes = changes_at old new (sorted (keys old ++ minus (keys new) (keys old)));
    }

abbrev pub is_regression : ControlChange → Bool
is_regression c = elim c.kind [ regression ↦ true | _ ↦ false ]

abbrev pub is_loss : ControlChange → Bool
is_loss c = elim c.kind [ evidence_loss ↦ true | _ ↦ false ]

-- One key of `exceeded`: its value is over its limit.
abbrev pub name_over : String → ℕ → ℕ → List String
name_over name value limit = if ltb limit value then name ∷ [] else []

unfoldable pub cis_exceeded : Thresholds → CisReport → CisReport → List ControlChange → List String
cis_exceeded t old new changes =
    name_over "coverageDropPercent" (old.coverage - new.coverage) t.cis_coverage_drop
    ++ (name_over "evidenceLoss" (count is_loss changes) t.cis_evidence_loss
        ++ (name_over "postureDropPercent" (old.posture - new.posture) t.cis_posture_drop
            ++ name_over "regressions" (count is_regression changes) t.cis_regressions))

abbrev pub exceeded_status : List String → Status
exceeded_status names = if is_empty names then passed else failed

-- The gate of a required evidence that is absent.
abbrev pub without_evidence : Bool → Status
without_evidence required = if required then failed else warned

-- The gate, and the changes of the controls.
unfoldable pub cis_gate : Collection → Collection → Thresholds → Gate × List ControlChange
cis_gate before after t =
    if is_empty before.cis.controls || is_empty after.cis.controls
    then (gate "cis.regression" "CIS" (without_evidence t.require_cis) t.require_cis, [])
    else (let changes = (compare_reports before.cis after.cis).changes in
        (
          gate "cis.regression" "CIS"
              (exceeded_status (cis_exceeded t before.cis after.cis changes)) true,
          changes,
        ))
