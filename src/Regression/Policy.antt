-- ===== src/Regression/Policy.antt =====
-- `load_policy` of tools/eks-assessment/src/regression_validation.py, for the profile that
-- `policy_document` selects.
pub mod Strict
use k8s_lab_vmware.Prelude.{
  ℕ, String, List, [], ◌∷◌, ◌++◌, map, Bool, true, false, not, Option, none, some, mem, minus,
  is_empty, Dict, lookup,
}
use k8s_lab_vmware.Prelude.Result.{Result, ok, err, ◌>>=◌, ◌>>◌, refuse}

-- A value of a profile. `number` is a number that is finite and not negative, `invalid` any other
-- value that is no Boolean and not null.
pub data Setting : Type 0 where
  boolean : Bool → Setting
  number : ℕ → Setting
  null invalid : Setting

pub record Thresholds : Type 0 where
  pub require_same_cluster : Bool
  pub require_completed : Bool
  pub require_integrity : Bool
  pub require_cis : Bool
  pub require_operational : Bool
  pub new_critical : ℕ
  pub new_warnings : ℕ
  pub severity_regressions : ℕ
  pub evidence_loss : ℕ
  pub cis_regressions : ℕ
  pub cis_evidence_loss : ℕ
  pub cis_posture_drop : ℕ
  pub cis_coverage_drop : ℕ
  pub node_state_regressions : ℕ
  pub node_critical : ℕ
  pub node_warnings : ℕ
  pub node_coverage_drop : ℕ
  pub manifest_critical : ℕ
  pub manifest_warnings : ℕ
  pub end_of_support : ℕ
  pub quality_regression : ℕ
  pub duration_increase : ℕ
  pub api_requests_increase : ℕ
  pub response_bytes_increase : ℕ
  pub peak_rss_increase : ℕ
  pub current_critical : Option ℕ
  pub current_warnings : Option ℕ
  pub current_unknown : Option ℕ
  pub current_partial : Option ℕ

pub data PolicyError : Type 0 where
  unknown_profile : PolicyError
  unknown_fields missing_fields : (keys : List String) → PolicyError
  not_boolean disabled not_number : (key : String) → PolicyError

abbrev pub boolean_keys : List String
boolean_keys =
    "requireSameCluster" ∷ "requireCompletedCollections" ∷ "requireArtifactIntegrity"
    ∷ "requireCisEvidence" ∷ "requireOperationalEvidence" ∷ []

-- The limits that may be null: those that start with "maxCurrent".
abbrev pub current_keys : List String
current_keys =
    "maxCurrentCritical" ∷ "maxCurrentWarnings" ∷ "maxCurrentUnknown" ∷ "maxCurrentPartial" ∷ []

abbrev pub limit_keys : List String
limit_keys =
    "maxNewCritical" ∷ "maxNewWarnings" ∷ "maxSeverityRegressions" ∷ "maxEvidenceLoss"
    ∷ "maxCisRegressions" ∷ "maxCisEvidenceLoss" ∷ "maxCisPostureDropPercent"
    ∷ "maxCisCoverageDropPercent" ∷ "maxNodeStateRegressions" ∷ "maxNodeCriticalIncrease"
    ∷ "maxNodeWarningIncrease" ∷ "maxNodeMetricsCoverageDropPercent" ∷ "maxManifestCriticalIncrease"
    ∷ "maxManifestWarningIncrease" ∷ "maxEndOfSupportIncrease" ∷ "maxQualityRegression"
    ∷ "maxDurationIncreasePercent" ∷ "maxApiRequestsIncreasePercent"
    ∷ "maxResponseBytesIncreasePercent" ∷ "maxPeakRssIncreasePercent" ∷ current_keys

-- `for key in BOOLEAN_KEYS`
unfoldable pub check_boolean : String → Option Setting → Result PolicyError (Unit {0})
check_boolean key (some (boolean true)) = ok tt
check_boolean key (some (boolean false)) = err (disabled key)
check_boolean key _ = err (not_boolean key)

-- `for key in LIMIT_KEYS`; `float(True)` is a number in Python. A numeric text, which `float` takes
-- too, is `invalid` here: the source loads it, and raises when a gate compares a number with it.
unfoldable pub check_limit : String → Option Setting → Result PolicyError (Unit {0})
check_limit key (some (number n)) = ok tt
check_limit key (some (boolean b)) = ok tt
check_limit key (some null) = refuse (not (mem key current_keys)) (not_number key)
check_limit key _ = err (not_number key)

unfoldable pub check_each :
    (String → Option Setting → Result PolicyError (Unit {0}))
    → Dict Setting
    → List String
    → Result PolicyError (Unit {0})
check_each check raw [] = ok tt
check_each check raw (key ∷ keys) = do check key (lookup key raw); check_each check raw keys

abbrev pub flag_of : Option Setting → Bool
flag_of (some (boolean b)) = b
flag_of _ = false

-- A limit; Python compares with `True` as with 1.
abbrev pub limit_of : Option Setting → ℕ
limit_of (some (number n)) = n
limit_of (some (boolean true)) = 1
limit_of _ = 0

abbrev pub current_of : Option Setting → Option ℕ
current_of (some null) = none
current_of s = some (limit_of s)

unfoldable pub thresholds_of : Dict Setting → Thresholds
thresholds_of raw = record {
  require_same_cluster = flag_of (lookup "requireSameCluster" raw);
  require_completed = flag_of (lookup "requireCompletedCollections" raw);
  require_integrity = flag_of (lookup "requireArtifactIntegrity" raw);
  require_cis = flag_of (lookup "requireCisEvidence" raw);
  require_operational = flag_of (lookup "requireOperationalEvidence" raw);
  new_critical = limit_of (lookup "maxNewCritical" raw);
  new_warnings = limit_of (lookup "maxNewWarnings" raw);
  severity_regressions = limit_of (lookup "maxSeverityRegressions" raw);
  evidence_loss = limit_of (lookup "maxEvidenceLoss" raw);
  cis_regressions = limit_of (lookup "maxCisRegressions" raw);
  cis_evidence_loss = limit_of (lookup "maxCisEvidenceLoss" raw);
  cis_posture_drop = limit_of (lookup "maxCisPostureDropPercent" raw);
  cis_coverage_drop = limit_of (lookup "maxCisCoverageDropPercent" raw);
  node_state_regressions = limit_of (lookup "maxNodeStateRegressions" raw);
  node_critical = limit_of (lookup "maxNodeCriticalIncrease" raw);
  node_warnings = limit_of (lookup "maxNodeWarningIncrease" raw);
  node_coverage_drop = limit_of (lookup "maxNodeMetricsCoverageDropPercent" raw);
  manifest_critical = limit_of (lookup "maxManifestCriticalIncrease" raw);
  manifest_warnings = limit_of (lookup "maxManifestWarningIncrease" raw);
  end_of_support = limit_of (lookup "maxEndOfSupportIncrease" raw);
  quality_regression = limit_of (lookup "maxQualityRegression" raw);
  duration_increase = limit_of (lookup "maxDurationIncreasePercent" raw);
  api_requests_increase = limit_of (lookup "maxApiRequestsIncreasePercent" raw);
  response_bytes_increase = limit_of (lookup "maxResponseBytesIncreasePercent" raw);
  peak_rss_increase = limit_of (lookup "maxPeakRssIncreasePercent" raw);
  current_critical = current_of (lookup "maxCurrentCritical" raw);
  current_warnings = current_of (lookup "maxCurrentWarnings" raw);
  current_unknown = current_of (lookup "maxCurrentUnknown" raw);
  current_partial = current_of (lookup "maxCurrentPartial" raw);
}

unfoldable pub check_values : Dict Setting → Result PolicyError (Unit {0})
check_values raw =
    check_each check_boolean raw boolean_keys >> check_each check_limit raw limit_keys

-- The profile is absent (`none`) when the document has no such object.
unfoldable pub load_policy : Option (Dict Setting) → Result PolicyError Thresholds
load_policy none = err unknown_profile
load_policy (some raw) = do
  let fields = map (λ (p : String × Setting). p.0) raw
  let unknown = minus fields ("description" ∷ boolean_keys ++ limit_keys)
  refuse (not (is_empty unknown)) (unknown_fields unknown)
  let missing = minus (boolean_keys ++ limit_keys) fields
  refuse (not (is_empty missing)) (missing_fields missing)
  check_values raw
  ok (thresholds_of raw)
