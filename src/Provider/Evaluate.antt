-- ===== src/Provider/Evaluate.antt =====
-- `evaluate` of tools/eks-assessment/src/provider_validation.py with the gates on coverage, the cloud
-- API and performance. Percentages are hundredths, as the code rounds them to two places.
use k8s_lab_vmware.Prelude.{
  ℕ, ◌*◌, String, List, [], ◌∷◌, ◌++◌, Bool, true, false, not, ◌&&◌, ◌||◌, Option, none, some,
  if◌then◌else◌, ◌==◌, mem, any, all, get_or, is_empty, nat_eq, leb, count, is_some,
}
use k8s_lab_vmware.Prelude.Int.{pos}
use k8s_lab_vmware.Prelude.Rounding.{round_div}
use k8s_lab_vmware.Prelude.Result.{Result, ok, ◌>>=◌}
use k8s_lab_vmware.Json.Access.{Raised, or_else, object_or_empty}
use k8s_lab_vmware.Json.{Value, object, Fields, end, field, Number, number, get, below}
use k8s_lab_vmware.Provider.{
  Builtins, Status, passed, warned, failed, not_applicable, terminal_state, detection, integrity,
  read_only, data_protection, applicability, quality, kubernetes_coverage, cloud_api,
  cloud_coverage, budget, Gate, gate, passing, nested, text_at, Documents, is_terminal, agrees,
  has_quality,
}
use k8s_lab_vmware.Provider.Safety.{is_read_only, is_protected}
use k8s_lab_vmware.Provider.Applicability.{Violation, violations_of}

-- The default values are those of `Thresholds`.
pub record Thresholds : Type 0 where
  pub max_duration_seconds : Number
  pub max_api_requests : Number
  pub max_cloud_api_requests : Number
  pub max_api_retries : Number
  pub max_api_throttles : Number
  pub max_response_bytes : Number
  pub max_peak_rss_bytes : Number
  pub min_kubernetes_coverage : ℕ
  pub min_cloud_coverage : ℕ

abbrev pub whole : ℕ → Number
whole n = number (pos n) 0

abbrev pub default_thresholds : Thresholds
default_thresholds = record {
  max_duration_seconds = whole 1800;
  max_api_requests = whole 1000;
  max_cloud_api_requests = whole 100;
  max_api_retries = whole 3;
  max_api_throttles = whole 0;
  max_response_bytes = whole 268435456;
  max_peak_rss_bytes = whole 536870912;
  min_kubernetes_coverage = 8000;
  min_cloud_coverage = 8000;
}

abbrev pub is_excluded : String → Bool
is_excluded state = mem state ("N/A" ∷ "NOT_APPLICABLE" ∷ "DISABLED" ∷ [])

-- The share of `available` among the states that are not excluded.
unfoldable pub percent_of : List String → Option ℕ
unfolding round_div
percent_of states =
    let considered = count (λ s. not (is_excluded s)) states in
    let available = count (λ s. s == "AVAILABLE") states in
    if nat_eq considered 0 then none else some (round_div (available * 10000) considered)

-- `values[key] > limit` for a metric that is there.
abbrev pub exceeds : Option Number × Number → Bool
exceeds (none, limit) = false
exceeds (some v, limit) = below limit v

abbrev pub is_missing : Option Number × Number → Bool
is_missing (v, limit) = not (is_some v)

unfoldable pub budget_status : List (Option Number × Number) → Status
unfolding below
budget_status metrics =
    if any exceeds metrics then failed else if any is_missing metrics then warned else passed

abbrev pub coverage_status : (unknown : Status) → Option ℕ → (minimum : ℕ) → Status
coverage_status unknown none minimum = unknown
coverage_status unknown (some percent) minimum = if leb minimum percent then passed else failed

pub data State : Type 0 where
  fail warn pass : State

abbrev pub is_pass : Status → Bool
is_pass passed = true
is_pass _ = false

abbrev pub is_fail : Status → Bool
is_fail failed = true
is_fail _ = false

abbrev pub is_warn : Status → Bool
is_warn warned = true
is_warn _ = false

pub record Report : Type 0 where
  pub state : State
  pub release_ready : Bool
  pub gates : List Gate

unfoldable pub report_of : List Gate → Report
report_of gates = record {
  release_ready = all (λ (g : Gate). not g.mandatory || is_pass g.status) gates;
  state =
      if any (λ (g : Gate). g.mandatory && is_fail g.status) gates
      then fail
      else if any (λ (g : Gate). g.mandatory && is_warn g.status) gates
      then warn
      else pass;
  gates = gates;
}

abbrev pub cloud_status : String → Status
cloud_status state =
    if state == "AVAILABLE" then passed else if state == "PARTIAL" then warned else failed

unfoldable pub cloud_gates_of :
    (is_generic : Bool) → (state : String) → (percent : Option ℕ) → (minimum : ℕ) → List Gate
cloud_gates_of true state percent minimum =
    let valid = mem state ("N/A" ∷ "NOT_APPLICABLE" ∷ []) in
    record {
      id = cloud_api;
      status = if valid then not_applicable else failed;
      mandatory = not valid;
    }
    ∷ []
cloud_gates_of false state percent minimum =
    gate cloud_api (cloud_status state)
    ∷ gate cloud_coverage (coverage_status failed percent minimum)
    ∷ []

-- The gates of a report in their order, from what they test.
unfoldable pub gates_of :
    (terminal agreed intact safe kept applied clean : Bool)
    → (coverage : Status) → (cloud : List Gate) → (performance : Status) → List Gate
gates_of terminal agreed intact safe kept applied clean coverage cloud performance =
    gate terminal_state (passing terminal)
    ∷ gate detection (passing agreed)
    ∷ gate integrity (passing intact)
    ∷ gate read_only (passing safe)
    ∷ gate data_protection (passing kept)
    ∷ gate applicability (passing applied)
    ∷ gate quality (passing clean)
    ∷ gate kubernetes_coverage coverage
    ∷ (cloud ++ gate budget performance ∷ [])

-- What the gates read, where reading it did not raise.
pub record Readings : Type 0 where
  pub safe : Bool
  pub kept : Bool
  pub violations : List Violation
  pub clean : Bool
  pub metrics : List (Option Number × Number)

module _ (b : Builtins) where
  abbrev pub dict_state : Value → List String → List String
  dict_state (object fs) rest = b.upper (text_at b "state" "UNKNOWN" fs) ∷ rest
  dict_state v rest = rest

  unfoldable pub states_of : Fields → List String
  states_of end = []
  states_of (field k v fs) = dict_state v (states_of fs)

  abbrev pub coverage_states : Value → List String
  coverage_states (object fs) = states_of fs
  coverage_states _ = []

  unfoldable pub coverage_percent : Value → Option ℕ
  unfolding states_of percent_of
  coverage_percent value = percent_of (coverage_states value)

  abbrev pub kubernetes_percent : Documents → Option ℕ
  kubernetes_percent d =
      coverage_percent
        (get_or (nested ("collection" ∷ "resources" ∷ []) (object d.comprehensive)) (object end))

  abbrev pub cloud_percent : Documents → Option ℕ
  cloud_percent d = coverage_percent (or_else (get "coverage" d.cloud) (object end))

  abbrev pub cloud_state : Documents → String
  cloud_state d = b.upper (text_at b "state" "UNKNOWN" d.cloud)

  unfoldable pub cloud_gates : (expected : String) → (minimum : ℕ) → Documents → List Gate
  unfolding coverage_percent cloud_gates_of
  cloud_gates expected minimum d =
      cloud_gates_of (expected == "generic-kubernetes") (cloud_state d) (cloud_percent d) minimum

  -- `finite_number(value)`
  abbrev pub at_least_zero : Option Number → Option Number
  at_least_zero none = none
  at_least_zero (some n) = if below n (whole 0) then none else some n

  abbrev pub finite_number : Option Value → Option Number
  finite_number none = none
  finite_number (some v) = at_least_zero (b.float_of v)

  abbrev pub or_metric : Option Number → Option Number → Option Number
  or_metric none m = m
  or_metric (some n) m = some n

  -- Each metric with its limit.
  unfoldable pub metrics_of : Thresholds → Documents → Result Raised (List (Option Number × Number))
  unfolding below
  metrics_of t d = do
    requests ←
        object_or_empty (nested ("performance" ∷ "requestBudget" ∷ []) (object d.comprehensive))
    safety ← object_or_empty (get "safety" d.cloud)
    let duration =
        finite_number (nested ("performance" ∷ "durationSeconds" ∷ []) (object d.metadata))
    let peak = nested ("performance" ∷ "processPeakRssBytes" ∷ []) (object d.comprehensive)
    ok (
        (or_metric duration (finite_number (get "elapsedSeconds" requests)), t.max_duration_seconds)
        ∷ (finite_number (get "requests" requests), t.max_api_requests)
        ∷ (finite_number (get "requests" safety), t.max_cloud_api_requests)
        ∷ (finite_number (get "retries" requests), t.max_api_retries)
        ∷ (finite_number (get "throttles" requests), t.max_api_throttles)
        ∷ (finite_number (get "responseBytes" requests), t.max_response_bytes)
        ∷ (finite_number peak, t.max_peak_rss_bytes)
        ∷ [])

  unfoldable pub readings_of : Thresholds → (expected : String) → Documents → Result Raised Readings
  unfolding metrics_of
  readings_of t expected d = do
    safe ← is_read_only b d
    kept ← is_protected b d.cloud d.comprehensive
    violations ← violations_of b expected d
    clean ← has_quality b d.comprehensive
    metrics ← metrics_of t d
    ok (record {
      safe = safe;
      kept = kept;
      violations = violations;
      clean = clean;
      metrics = metrics;
    })

  abbrev pub gates_at :
      Thresholds
      → (detected expected : String) → (artifacts_ok : Bool) → Documents
      → Readings
      → List Gate
  gates_at t detected expected artifacts_ok d r =
      gates_of (is_terminal b d.metadata) (agrees b detected expected d.cloud d.operational)
        artifacts_ok r.safe r.kept (is_empty r.violations) r.clean
        (coverage_status warned (kubernetes_percent d) t.min_kubernetes_coverage)
        (cloud_gates expected t.min_cloud_coverage d) (budget_status r.metrics)

  -- `artifacts_ok` is the result of the artifact validation, `detected` that of `detected_platform`.
  unfoldable pub evaluate :
      Thresholds
      → (detected expected : String) → (artifacts_ok : Bool) → Documents
      → Result Raised Report
  unfolding readings_of cloud_gates budget_status report_of gates_of
  evaluate t detected expected artifacts_ok d = do
    r ← readings_of t expected d
    ok (report_of (gates_at t detected expected artifacts_ok d r))
