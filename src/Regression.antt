-- ===== src/Regression.antt =====
-- tools/eks-assessment/src/regression_validation.py: what a collection holds, as the regression
-- gates read it, and the gates. The children follow the functions of that file, with
-- `compare_reports` of tools/eks-assessment/src/cis_security_assessment.py in Cis.
pub mod Policy
pub mod Scope
pub mod Findings
pub mod Cis
pub mod Gates
pub mod Evaluate
pub mod Output
mod Examples
use k8s_lab_vmware.Prelude.{ℕ, String, Bool, Option, List}

-- A severity or a status text of the artifacts; a text that is none of these is `other`.
pub data Severity : Type 0 where
  not_applicable pass info unknown partial_evidence warn crit : Severity
  other : String → Severity

-- A finding; a missing or falsy text is empty, a missing severity is UNKNOWN. `identified` is
-- `fingerprint or (ruleId|resourceKey, if both are there) or id or ""`.
pub record Finding : Type 0 where
  pub fingerprint : String
  pub rule_id : String
  pub resource_key : String
  pub id : String
  pub severity : Severity
  pub category : String
  pub namespace : String
  pub workload : String
  pub check : String
  pub detail : String
  pub evidence : String

-- A CIS control, with the texts that `compare_reports` compares.
pub record Control : Type 0 where
  pub control_id : String
  pub applicability : String
  pub responsibility : String
  pub status : String

-- Percentages of the CIS summary are whole numbers; a missing one counts as 0.
pub record CisReport : Type 0 where
  pub controls : List Control
  pub posture : ℕ
  pub coverage : ℕ

-- A node of Node Health, with its state.
pub record Node : Type 0 where
  pub node : String
  pub state : String

-- The metrics coverage is in hundredths of a percent.
pub record NodeSummary : Type 0 where
  pub metrics_coverage : Option ℕ
  pub critical : ℕ
  pub warnings : ℕ

pub record ManifestSummary : Type 0 where
  pub critical : ℕ
  pub warnings : ℕ

pub record VersionSummary : Type 0 where
  pub end_of_support : ℕ
  pub version_skew : Bool

pub record Quality : Type 0 where
  pub identity_duplicates : ℕ
  pub conflicting_severities : ℕ
  pub low_confidence_passes : ℕ

pub record Metadata : Type 0 where
  pub completed : Bool
  pub status : String
  pub cluster_name : String
  pub context : String
  pub namespace_scope : String
  pub duration : Option ℕ

-- A collection: `none` is an absent or empty object, whose gate has no evidence.
-- `collection_scope` is the namespace scope that the comprehensive assessment repeats.
pub record Collection : Type 0 where
  pub name : String
  pub metadata : Metadata
  pub collection_scope : String
  pub findings : List Finding
  pub cis : CisReport
  pub node_items : List Node
  pub node_summary : Option NodeSummary
  pub manifest : Option ManifestSummary
  pub versions : Option VersionSummary
  pub quality : Option Quality
  pub api_requests : Option ℕ
  pub response_bytes : Option ℕ
  pub peak_rss : Option ℕ
  pub artifacts_ok : Bool

pub data Status : Type 0 where
  passed failed warned skipped : Status

-- `gate(…)`, less its summary and evidence texts.
pub record Gate : Type 0 where
  pub gate_id : String
  pub category : String
  pub status : Status
  pub mandatory : Bool

abbrev pub gate : String → String → Status → Bool → Gate
gate gate_id category status mandatory = record {
  gate_id = gate_id;
  category = category;
  status = status;
  mandatory = mandatory;
}
