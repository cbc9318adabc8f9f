-- ===== src/Regression/Examples.antt =====
-- Runs of the regression gates on small collections.
use k8s_lab_vmware.Prelude.{
  ◌≤◌, String, List, [], ◌∷◌, ◌++◌, map, ◌≡◌, ◌↔◌, refl, true, false, none, some, Dict, lookup,
  ◌==◌, length, mem, insert, strip, Has, if◌then◌else◌, ◌<◌,
}
use k8s_lab_vmware.Prelude.Result.{ok}
use k8s_lab_vmware.Prelude.Rounding.{round_div}
use k8s_lab_vmware.Regression.{
  Severity, crit, warn, pass, Finding, Collection, passed, failed, skipped, gate, Gate,
}
use k8s_lab_vmware.Regression.Policy.{
  Setting, boolean, number, null, Thresholds, boolean_keys, limit_keys, current_keys, load_policy,
  check_values, check_each, check_boolean, check_limit, thresholds_of,
}
use k8s_lab_vmware.Regression.Policy.Strict.{IsStrict, load_policy-IsStrict}
use k8s_lab_vmware.Regression.Scope.{scope_evidence, completed, cluster_signal, namespace_signal}
use k8s_lab_vmware.Regression.Findings.{
  safe_change, new_risk, severity_regression, evidence_loss, finding_identity, findings_from,
  findings_delta, rank, is_risk, is_gap, new_risks_of, regressions_of, losses_of, resolved_of,
  each_item, finding_gates, new_risk_failed, current_exceeded,
}
use k8s_lab_vmware.Regression.Findings.Last.{last_with}
use k8s_lab_vmware.Regression.Findings.Compare.{findings_delta_same, findings_delta_complete}
use k8s_lab_vmware.Regression.Cis.{
  controls_from, changes_at, sorted, insert_sorted, change_kind, cis_gate, compare_reports,
  cis_exceeded,
}
use k8s_lab_vmware.Regression.Gates.{
  nodes_from, state_regressions, node_rank, coverage_drop, increase_percent, node_gate,
  node_exceeded, operational_gate, operational_exceeded, quality_gate, quality_increase,
  performance_gate, performance_exceeded, increases,
}
use k8s_lab_vmware.Regression.Evaluate.{
  is_passed, scope_gates, content_gates, release_ready, overall_state, report_of,
}
use k8s_lab_vmware.Regression.Evaluate.Ready.{report_of-ready_state}
use k8s_lab_vmware.Regression.Evaluate.Clear.{Released, report_of-Released, report_of-no_new_risk}
use k8s_lab_vmware.Regression.Output.{junit_xml, sarif_results}
use k8s_lab_vmware.Regression.Output.Agreement.{junit_xml-sarif_results}

abbrev profile : Dict Setting
profile =
    map (λ (k : String). (k, boolean true)) boolean_keys
    ++ map (λ (k : String). (k, if mem k current_keys then null else number 0)) limit_keys

abbrev limits : Thresholds
limits = record {
  require_same_cluster = true;
  require_completed = true;
  require_integrity = true;
  require_cis = true;
  require_operational = true;
  new_critical = 0;
  new_warnings = 0;
  severity_regressions = 0;
  evidence_loss = 0;
  cis_regressions = 0;
  cis_evidence_loss = 0;
  cis_posture_drop = 0;
  cis_coverage_drop = 0;
  node_state_regressions = 0;
  node_critical = 0;
  node_warnings = 0;
  node_coverage_drop = 0;
  manifest_critical = 0;
  manifest_warnings = 0;
  end_of_support = 0;
  quality_regression = 0;
  duration_increase = 0;
  api_requests_increase = 0;
  response_bytes_increase = 0;
  peak_rss_increase = 0;
  current_critical = none;
  current_warnings = none;
  current_unknown = none;
  current_partial = none;
}

abbrev finding : String → Severity → Finding
finding id severity = record {
  fingerprint = id;
  rule_id = "";
  resource_key = "";
  id = "";
  severity = severity;
  category = "Pods";
  namespace = "lab";
  workload = "api";
  check = "limits";
  detail = "no memory limit";
  evidence = "";
}

abbrev collection : List Finding → Collection
collection findings = record {
  name = "collection";
  metadata = record {
    completed = true;
    status = "COMPLETED";
    cluster_name = "lab";
    context = "lab-context";
    namespace_scope = "all";
    duration = some 60;
  };
  collection_scope = "";
  findings = findings;
  cis = record {
    controls =
        record {
          control_id = "5.1.1";
          applicability = "APPLICABLE";
          responsibility = "CUSTOMER";
          status = "PASS";
        }
        ∷ [];
    posture = 90;
    coverage = 80;
  };
  node_items = record { node = "worker-1"; state = "PASS" } ∷ [];
  node_summary = some (record { metrics_coverage = some 10000; critical = 0; warnings = 0 });
  manifest = some (record { critical = 0; warnings = 1 });
  versions = some (record { end_of_support = 0; version_skew = false });
  quality =
      some
        (record { identity_duplicates = 0; conflicting_severities = 0; low_confidence_passes = 0 });
  api_requests = some 40;
  response_bytes = some 9000;
  peak_rss = some 512;
  artifacts_ok = true;
}

profile-limits : load_policy (some profile) ≡ ok limits
unfolding load_policy check_values check_each check_boolean check_limit thresholds_of mem lookup
profile-limits = refl

load_policy-IsStrict_example : IsStrict limits
load_policy-IsStrict_example = load_policy-IsStrict (some profile) limits profile-limits

abbrev leaked : Finding
leaked = finding "secret|lab|api" crit

abbrev old : Collection
old = collection (finding "limits|lab|api" warn ∷ finding "probe|lab|api" pass ∷ [])

-- The old warning, one that has become a warning, and a new critical finding.
abbrev worse : Collection
worse = collection (finding "limits|lab|api" warn ∷ finding "probe|lab|api" warn ∷ leaked ∷ [])

findings_delta_same_example :
    ((findings_delta worse worse).new_risks ≡ [])
    × ((findings_delta worse worse).severity_regressions ≡ [])
    × ((findings_delta worse worse).evidence_loss ≡ [])
    × ((findings_delta worse worse).resolved_risks ≡ [])
findings_delta_same_example = findings_delta_same worse worse refl

leaked-here : last_with (finding_identity leaked) worse.findings ≡ some leaked
unfolding last_with finding_identity
leaked-here = refl

leaked-named : (finding_identity leaked == "") ≡ false
unfolding finding_identity
leaked-named = refl

findings_delta_complete_example :
    (last_with (finding_identity leaked) old.findings ≡ none
      → (is_risk leaked.severity ≡ true
          → Has (safe_change new_risk leaked none) (findings_delta old worse).new_risks)
        × (is_gap leaked.severity ≡ true
            → Has (safe_change evidence_loss leaked none) (findings_delta old worse).evidence_loss))
    × ((previous : Finding)
        → last_with (finding_identity leaked) old.findings ≡ some previous
        → (rank previous.severity < rank leaked.severity
            → Has
                (safe_change severity_regression leaked (some previous.severity))
                (findings_delta old worse).severity_regressions)
          × (is_gap leaked.severity ≡ true
              → is_gap previous.severity ≡ false
              → Has
                  (safe_change evidence_loss leaked (some previous.severity))
                  (findings_delta old worse).evidence_loss))
findings_delta_complete_example = findings_delta_complete old worse leaked leaked-named leaked-here

worse-state : (report_of limits true old worse).state ≡ failed
unfolding report_of scope_evidence cluster_signal namespace_signal scope_gates completed
    content_gates finding_gates new_risk_failed current_exceeded findings_delta findings_from
    finding_identity new_risks_of regressions_of losses_of resolved_of each_item safe_change rank
    cis_gate compare_reports cis_exceeded node_gate operational_gate quality_gate performance_gate
    overall_state mem lookup insert strip
worse-state = refl

report_of-ready_state_example :
    (report_of limits true old worse).ready ≡ is_passed (report_of limits true old worse).state
report_of-ready_state_example = report_of-ready_state limits true old worse

-- The old warning alone, with a detail of its own.
abbrev same : Collection
same = collection (finding "limits|lab|api" warn ∷ [])

same-ready : (report_of limits true old same).ready ≡ true
unfolding report_of scope_evidence cluster_signal namespace_signal scope_gates completed
    content_gates finding_gates new_risk_failed current_exceeded findings_delta findings_from
    finding_identity new_risks_of regressions_of losses_of resolved_of each_item safe_change rank
    cis_gate compare_reports controls_from changes_at sorted insert_sorted change_kind cis_exceeded
    node_gate node_exceeded nodes_from state_regressions node_rank coverage_drop operational_gate
    operational_exceeded quality_gate quality_increase performance_gate increases increase_percent
    performance_exceeded round_div release_ready mem lookup insert strip
same-ready = refl

report_of-Released_example : Released limits true old same
report_of-Released_example =
    report_of-Released (some profile) limits true old same profile-limits same-ready

abbrev tight : Finding
tight = finding "limits|lab|api" warn

tight-here : last_with (finding_identity tight) same.findings ≡ some tight
unfolding last_with finding_identity
tight-here = refl

tight-named : (finding_identity tight == "") ≡ false
unfolding finding_identity
tight-named = refl

report_of-no_new_risk_example :
    (previous : Finding) × (last_with (finding_identity tight) old.findings ≡ some previous)
    × (rank warn ≤ rank previous.severity)
report_of-no_new_risk_example =
    report_of-no_new_risk (some profile) limits true old same profile-limits (refl, refl, refl)
      same-ready tight tight-named tight-here refl

abbrev gates : List Gate
gates =
    gate "comparison.scope" "Comparison" passed true
    ∷ gate "cis.regression" "CIS" failed true
    ∷ gate "quality.regression" "Quality" skipped false
    ∷ []

junit_xml-sarif_results_example :
    ((junit_xml gates).failures ≡ length (sarif_results gates))
    × (release_ready gates ≡ true ↔ sarif_results gates ≡ [])
junit_xml-sarif_results_example = junit_xml-sarif_results gates
