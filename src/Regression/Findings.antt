-- ===== src/Regression/Findings.antt =====
-- `findings_delta` and `finding_gates` of tools/eks-assessment/src/regression_validation.py.
pub mod Last
pub mod Compare
use Prim.Native.String.{◌++◌ as text_append}
use k8s_lab_vmware.Prelude.{
  ℕ, String, List, [], ◌∷◌, ◌++◌, map, Bool, true, false, not, ◌&&◌, ◌||◌, Option, none, some,
  if◌then◌else◌, ◌==◌, or_text, Dict, lookup, insert, ltb, count, length, clip, text_length,
}
use k8s_lab_vmware.Regression.{
  Severity, not_applicable, pass, info, unknown, partial_evidence, warn, crit, Finding, Collection,
  Status, passed, failed, Gate, gate,
}
use k8s_lab_vmware.Regression.Policy.{Thresholds}

-- `SEVERITY_RANK.get(severity, 2)`
unfoldable pub rank : Severity → ℕ
rank not_applicable = 0
rank pass = 0
rank info = 1
rank warn = 3
rank crit = 4
rank _ = 2

-- `severity in {"CRIT", "WARN"}`
abbrev pub is_risk : Severity → Bool
is_risk crit = true
is_risk warn = true
is_risk _ = false

-- `severity in {"UNKNOWN", "PARTIAL"}`
abbrev pub is_gap : Severity → Bool
is_gap unknown = true
is_gap partial_evidence = true
is_gap _ = false

abbrev pub joined : String → String → String
joined rule key = if rule == "" || key == "" then "" else text_append rule (text_append "|" key)

unfoldable pub finding_identity : Finding → String
finding_identity f = or_text f.fingerprint (or_text (joined f.rule_id f.resource_key) f.id)

pub data Kind : Type 0 where
  new_risk severity_regression evidence_loss resolved : Kind

pub record Change : Type 0 where
  pub kind : Kind
  pub fingerprint : String
  pub rule_id : String
  pub category : String
  pub namespace : String
  pub resource : String
  pub check : String
  pub before_status : Option Severity
  pub after_status : Option Severity
  pub detail : String

-- `none` as a status is "ABSENT".
unfoldable pub safe_change : Kind → Finding → Option Severity → Change
safe_change kind item before_status =
    let detail = or_text item.detail item.evidence in
    record {
      kind = kind;
      fingerprint = finding_identity item;
      rule_id = or_text item.rule_id "UNKNOWN";
      category = or_text item.category "UNKNOWN";
      namespace = or_text item.namespace "-";
      resource = or_text (or_text item.workload item.resource_key) "-";
      check = or_text item.check "-";
      before_status = before_status;
      after_status = some item.severity;
      detail = if ltb 500 (text_length detail) then text_append (clip 497 detail) "..." else detail;
    }

-- `{finding_identity(item): item for item in items if finding_identity(item)}`
unfoldable pub findings_from : Dict Finding → List Finding → Dict Finding
findings_from d [] = d
findings_from d (f ∷ fs) =
    let key = finding_identity f in findings_from (if key == "" then d else insert key f d) fs

abbrev pub findings_of : List Finding → Dict Finding
findings_of = findings_from []

pub record Delta : Type 0 where
  pub new_risks : List Change
  pub severity_regressions : List Change
  pub evidence_loss : List Change
  pub resolved_risks : List Change
  pub current : List Severity

abbrev pub when : Bool → Change → List Change
when test c = if test then c ∷ [] else []

-- What the first loop appends for one current finding, to `newRisks`, `regressions` and
-- `evidence_loss`.
unfoldable pub new_risks_of : Option Finding → Finding → List Change
new_risks_of none item = when (is_risk item.severity) (safe_change new_risk item none)
new_risks_of (some previous) item = []

unfoldable pub regressions_of : Option Finding → Finding → List Change
regressions_of none item = []
regressions_of (some previous) item =
    when (ltb (rank previous.severity) (rank item.severity))
      (safe_change severity_regression item (some previous.severity))

unfoldable pub losses_of : Option Finding → Finding → List Change
losses_of none item =
    when (not (is_risk item.severity) && is_gap item.severity) (safe_change evidence_loss item none)
losses_of (some previous) item =
    when (is_gap item.severity && not (is_gap previous.severity))
      (safe_change evidence_loss item (some previous.severity))

-- What the second loop appends to `resolved` for one earlier finding.
unfoldable pub resolved_of : Option Finding → Finding → List Change
resolved_of none item =
    when (is_risk item.severity)
      (record (safe_change resolved item (some item.severity)) { after_status = none })
resolved_of (some current) item =
    when (is_risk item.severity && ltb (rank current.severity) (rank item.severity))
      (safe_change resolved current (some item.severity))

-- A loop over the items of one dictionary, each with what the other has under its key.
unfoldable pub each_item :
    (Option Finding → Finding → List Change) → Dict Finding → Dict Finding → List Change
each_item visit others [] = []
each_item visit others ((key, item) ∷ rest) =
    visit (lookup key others) item ++ each_item visit others rest

unfoldable pub findings_delta : Collection → Collection → Delta
findings_delta before after =
    let old = findings_of before.findings in
    let new = findings_of after.findings in
    record {
      new_risks = each_item new_risks_of old new;
      severity_regressions = each_item regressions_of old new;
      evidence_loss = each_item losses_of old new;
      resolved_risks = each_item resolved_of new old;
      current = map (λ (f : Finding). f.severity) after.findings;
    }

abbrev pub is_crit : Severity → Bool
is_crit crit = true
is_crit _ = false

abbrev pub is_warn : Severity → Bool
is_warn warn = true
is_warn _ = false

abbrev pub is_unknown : Severity → Bool
is_unknown unknown = true
is_unknown _ = false

abbrev pub is_partial : Severity → Bool
is_partial partial_evidence = true
is_partial _ = false

abbrev pub after_is : (Severity → Bool) → Change → Bool
after_is p c = elim c.after_status [ none ↦ false | some s ↦ p s ]

-- A limit of the profile on the current findings; null sets none.
abbrev pub over : Option ℕ → ℕ → Bool
over none n = false
over (some limit) n = ltb limit n

abbrev pub verdict : Bool → Status
verdict exceeded = if exceeded then failed else passed

unfoldable pub new_risk_failed : Thresholds → Delta → Bool
new_risk_failed t d =
    ltb t.new_critical (count (after_is is_crit) d.new_risks)
    || ltb t.new_warnings (count (after_is is_warn) d.new_risks)

unfoldable pub current_exceeded : Thresholds → Delta → Bool
current_exceeded t d =
    over t.current_critical (count is_crit d.current)
    || over t.current_warnings (count is_warn d.current)
    || over t.current_unknown (count is_unknown d.current)
    || over t.current_partial (count is_partial d.current)

unfoldable pub finding_gates : Delta → Thresholds → List Gate
unfolding new_risk_failed current_exceeded
finding_gates d t =
    gate "findings.new-risk" "Findings" (verdict (new_risk_failed t d)) true
    ∷ gate "findings.severity-regression" "Findings"
        (verdict (ltb t.severity_regressions (length d.severity_regressions))) true
    ∷ gate "evidence.loss" "Evidence" (verdict (ltb t.evidence_loss (length d.evidence_loss))) true
    ∷ gate "findings.current-risk" "Findings" (verdict (current_exceeded t d)) true
    ∷ []
