-- ===== src/Regression/Gates.antt =====
-- `node_gate`, `operational_gate`, `quality_gate`, `performance_gate` and `scope_blocked_gates` of
-- tools/eks-assessment/src/regression_validation.py. Percentages of these gates are in hundredths,
-- the limits of the policy in whole percents.
use k8s_lab_vmware.Prelude.{
  ℕ, ◌+◌, ◌-◌, ◌*◌, String, List, [], ◌∷◌, ◌++◌, map, Bool, true, false, not, ◌&&◌, Option, none,
  some, if◌then◌else◌, ◌==◌, Dict, lookup, insert, ltb, leb, nat_eq, is_empty, is_some,
}
use k8s_lab_vmware.Prelude.Int.{ℤ, pos, negsuc, pos_part}
use k8s_lab_vmware.Prelude.Rounding.{round_div}
use k8s_lab_vmware.Regression.{
  Node, NodeSummary, ManifestSummary, VersionSummary, Quality, Collection, Status, passed, failed,
  warned, skipped, Gate, gate,
}
use k8s_lab_vmware.Regression.Policy.{Thresholds}
use k8s_lab_vmware.Regression.Cis.{name_over, exceeded_status, without_evidence}

-- `NODE_STATE_RANK.get(state, 1)`
unfoldable pub node_rank : String → ℕ
node_rank s = if s == "PASS" then 0 else if s == "WARN" then 2 else if s == "CRIT" then 3 else 1

unfoldable pub nodes_from : Dict Node → List Node → Dict Node
nodes_from d [] = d
nodes_from d (n ∷ ns) = nodes_from (insert n.node n d) ns

abbrev pub node_regressed : Option Node → Node → Bool
node_regressed none new = false
node_regressed (some old) new = ltb (node_rank old.state) (node_rank new.state)

unfoldable pub state_regressions : Dict Node → Dict Node → ℕ
state_regressions old [] = 0
state_regressions old ((name, item) ∷ rest) =
    (if node_regressed (lookup name old) item then 1 else 0) + state_regressions old rest

-- `max(0.0, old - new)` where both are numbers
unfoldable pub coverage_drop : Option ℕ → Option ℕ → Option ℕ
coverage_drop (some old) (some new) = some (old - new)
coverage_drop _ _ = none

-- A key of `exceeded` whose value may be None.
abbrev pub name_over? : String → Option ℕ → ℕ → List String
name_over? name none limit = []
name_over? name (some value) limit = name_over name value limit

-- FAIL where a limit is exceeded, else WARN where a value is missing.
abbrev pub graded_status : List String → Bool → Status
graded_status exceeded missing =
    if is_empty exceeded then (if missing then warned else passed) else failed

unfoldable pub node_exceeded :
    Thresholds → Collection → Collection → NodeSummary → NodeSummary → List String
unfolding coverage_drop
node_exceeded t before after old new =
    name_over "criticalIncrease" (new.critical - old.critical) t.node_critical
    ++ (name_over? "metricsCoverageDropPercent"
          (coverage_drop old.metrics_coverage new.metrics_coverage) (t.node_coverage_drop * 100)
        ++ (name_over "stateRegressions"
              (state_regressions (nodes_from [] before.node_items) (nodes_from [] after.node_items))
              t.node_state_regressions
            ++ name_over "warningIncrease" (new.warnings - old.warnings) t.node_warnings))

abbrev pub node_gate_of :
    Thresholds → Collection → Collection → Option NodeSummary → Option NodeSummary → Gate
node_gate_of t before after (some old) (some new) =
    gate "node-health.regression" "Node Health"
      (graded_status (node_exceeded t before after old new)
        (not (is_some (coverage_drop old.metrics_coverage new.metrics_coverage))))
      true
node_gate_of t before after _ _ =
    gate "node-health.regression" "Node Health" (without_evidence t.require_operational)
      t.require_operational

unfoldable pub node_gate : Collection → Collection → Thresholds → Gate
node_gate before after t = node_gate_of t before after before.node_summary after.node_summary

pub record Operational : Type 0 where
  pub manifest : ManifestSummary
  pub versions : VersionSummary

-- Both summaries, or nothing.
abbrev pub operational_of : Option ManifestSummary → Option VersionSummary → Option Operational
operational_of (some m) (some v) = some (record { manifest = m; versions = v })
operational_of _ _ = none

unfoldable pub operational_exceeded : Thresholds → Operational → Operational → List String
operational_exceeded t old new =
    name_over "endOfSupportIncrease" (new.versions.end_of_support - old.versions.end_of_support)
      t.end_of_support
    ++ (name_over "manifestCriticalIncrease" (new.manifest.critical - old.manifest.critical)
          t.manifest_critical
        ++ (name_over "manifestWarningIncrease" (new.manifest.warnings - old.manifest.warnings)
              t.manifest_warnings
            ++ name_over "nodeVersionSkewIntroduced"
                (if new.versions.version_skew && not old.versions.version_skew then 1 else 0) 0))

abbrev pub operational_gate_of : Thresholds → Option Operational → Option Operational → Gate
operational_gate_of t (some old) (some new) =
    gate "operational.regression" "Operational Insights"
      (exceeded_status (operational_exceeded t old new)) true
operational_gate_of t _ _ =
    gate "operational.regression" "Operational Insights" (without_evidence t.require_operational)
      t.require_operational

unfoldable pub operational_gate : Collection → Collection → Thresholds → Gate
operational_gate before after t =
    operational_gate_of t (operational_of before.manifest before.versions)
      (operational_of after.manifest after.versions)

unfoldable pub quality_increase : Quality → Quality → ℕ
quality_increase old new =
    (new.identity_duplicates - old.identity_duplicates)
    + (new.conflicting_severities - old.conflicting_severities)
    + (new.low_confidence_passes - old.low_confidence_passes)

abbrev pub quality_gate_of : Thresholds → Option Quality → Option Quality → Gate
quality_gate_of t (some old) (some new) =
    gate "quality.regression" "Quality"
      (if ltb t.quality_regression (quality_increase old new) then failed else passed) true
quality_gate_of t _ _ = gate "quality.regression" "Quality" warned true

unfoldable pub quality_gate : Collection → Collection → Thresholds → Gate
quality_gate before after t = quality_gate_of t before.quality after.quality

-- `round((after - before) * 100.0 / before, 2)` in hundredths; no value where `before` is 0 and
-- `after` is not.
unfoldable pub increase_percent : Option ℕ → Option ℕ → Option ℤ
increase_percent (some before) (some after) =
    if nat_eq before 0
    then (if nat_eq after 0 then some (pos 0) else none)
    else if leb before after
    then some (pos (round_div ((after - before) * 10000) before))
    else (let drop = round_div ((before - after) * 10000) before in
        some (if nat_eq drop 0 then pos 0 else negsuc (drop - 1)))
increase_percent _ _ = none

abbrev pub increase_over : Option ℤ → ℕ → Bool
increase_over none limit = false
increase_over (some value) limit = ltb (limit * 100) (pos_part value)

abbrev pub name_increase : String → Option ℤ → ℕ → List String
name_increase name value limit = if increase_over value limit then name ∷ [] else []

pub record Increases : Type 0 where
  pub duration : Option ℤ
  pub api_requests : Option ℤ
  pub response_bytes : Option ℤ
  pub peak_rss : Option ℤ

unfoldable pub increases : Collection → Collection → Increases
unfolding increase_percent
increases old new = record {
  duration = increase_percent old.metadata.duration new.metadata.duration;
  api_requests = increase_percent old.api_requests new.api_requests;
  response_bytes = increase_percent old.response_bytes new.response_bytes;
  peak_rss = increase_percent old.peak_rss new.peak_rss;
}

unfoldable pub performance_exceeded : Thresholds → Increases → List String
performance_exceeded t i =
    name_increase "apiRequests" i.api_requests t.api_requests_increase
    ++ (name_increase "duration" i.duration t.duration_increase
        ++ (name_increase "peakRss" i.peak_rss t.peak_rss_increase
            ++ name_increase "responseBytes" i.response_bytes t.response_bytes_increase))

abbrev pub increase_missing : Increases → Bool
increase_missing i =
    not (
      is_some i.duration
      && is_some i.api_requests
      && is_some i.response_bytes
      && is_some i.peak_rss)

unfoldable pub performance_gate : Collection → Collection → Thresholds → Gate
performance_gate before after t =
    let i = increases before after in
    gate "performance.regression" "Performance"
      (graded_status (performance_exceeded t i) (increase_missing i)) true

unfoldable pub scope_blocked_gates : List Gate
scope_blocked_gates =
    map (λ (d : String × String). gate d.0 d.1 skipped false)
      (("findings.new-risk", "Findings")
        ∷ ("findings.severity-regression", "Findings")
        ∷ ("evidence.loss", "Evidence")
        ∷ ("findings.current-risk", "Findings")
        ∷ ("cis.regression", "CIS")
        ∷ ("node-health.regression", "Node Health")
        ∷ ("operational.regression", "Operational")
        ∷ ("quality.regression", "Quality")
        ∷ ("performance.regression", "Performance")
        ∷ [])
