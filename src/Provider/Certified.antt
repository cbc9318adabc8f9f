-- ===== src/Provider/Certified.antt =====
-- What a collection that is ready for release holds.
use k8s_lab_vmware.Prelude.{
  String, List, [], ◌≡◌, refl, ap, ◌∙◌, Bool, true, Option, all, ◌==◌, is_empty, All,
}
use k8s_lab_vmware.Prelude.Result.{ok, ok_inj, returned}
use k8s_lab_vmware.Json.{Number, object, end, get}
use k8s_lab_vmware.Json.Access.{or_else}
use k8s_lab_vmware.Provider.{
  Builtins, warned, Documents, has_quality, is_terminal, agrees, platform_of, text_at, reports_of,
  is_boolean,
}
use k8s_lab_vmware.Provider.Safety.{is_read_only, is_protected}
use k8s_lab_vmware.Provider.Applicability.{violations_of}
use k8s_lab_vmware.Provider.Evaluate.{
  Thresholds, Report, report_of, cloud_gates, budget_status, coverage_status, readings_of, Readings,
  gates_at, evaluate, kubernetes_percent, cloud_percent, cloud_state, metrics_of,
}
use k8s_lab_vmware.Provider.Free.{IsFree, is_protected-IsFree}
use k8s_lab_vmware.Provider.Passed.{
  IsWithin, Reaches, CloudEvidence, coverage_lem, budget_lem, holds, cloud_lem, is_read_only-All,
  agrees_lem, no_more, gates_of-AllPassed, terminal_lem,
}

module _ (b : Builtins) (t : Thresholds) (detected expected : String) (artifacts_ok : Bool)
    (d : Documents) where
  pub record IsCertified : Type 0 where
    pub completed :
        (b.upper (text_at b "status" "UNKNOWN" d.metadata) ≡ "COMPLETED")
        × (is_boolean true (get "completed" d.metadata) ≡ true)
    pub provider :
        (detected ≡ expected)
        × (text_at b "provider" "UNKNOWN" d.cloud ≡ expected)
        × (platform_of b d.operational ≡ expected)
    pub artifacts : artifacts_ok ≡ true
    pub read_only_reports : All (λ r. is_boolean true (get "readOnly" r) ≡ true) (reports_of d)
    pub protected_cloud : IsFree b (object d.cloud)
    pub protected_copy : IsFree b (or_else (get "cloudProvider" d.comprehensive) (object end))
    pub no_violation : violations_of b expected d ≡ ok []
    pub coverage : Reaches (kubernetes_percent b d) t.min_kubernetes_coverage
    pub cloud_evidence :
        CloudEvidence
          (expected == "generic-kubernetes")
          (cloud_state b d)
          (cloud_percent b d)
          t.min_cloud_coverage
    pub performance :
        (metrics : List (Option Number × Number)) × (metrics_of b t d ≡ ok metrics)
        × All IsWithin metrics

readings_lem :
    (b : Builtins) (t : Thresholds) (expected : String) (d : Documents) (r : Readings)
    → readings_of b t expected d ≡ ok r
    → (is_read_only b d ≡ ok r.safe)
      × (is_protected b d.cloud d.comprehensive ≡ ok r.kept)
      × (violations_of b expected d ≡ ok r.violations)
      × (metrics_of b t d ≡ ok r.metrics)
unfolding readings_of
readings_lem b t expected d r h =
    let (safe, e1, h1) = returned (is_read_only b d) _ h in
    let (kept, e2, h2) = returned (is_protected b d.cloud d.comprehensive) _ h1 in
    let (violations, e3, h3) = returned (violations_of b expected d) _ h2 in
    let (clean, e4, h4) = returned (has_quality b d.comprehensive) _ h3 in
    let (metrics, e5, h5) = returned (metrics_of b t d) _ h4 in
    let e = ok_inj h5 in
    (
      e1 ∙ ap (λ (x : Readings). ok x.safe) e,
      e2 ∙ ap (λ (x : Readings). ok x.kept) e,
      e3 ∙ ap (λ (x : Readings). ok x.violations) e,
      e5 ∙ ap (λ (x : Readings). ok x.metrics) e,
    )

certified :
    (b : Builtins) (t : Thresholds) (detected expected : String) (artifacts_ok : Bool)
    (d : Documents) (r : Readings)
    → readings_of b t expected d ≡ ok r
    → all holds (gates_at b t detected expected artifacts_ok d r) ≡ true
    → IsCertified b t detected expected artifacts_ok d
unfolding cloud_gates
certified b t detected expected artifacts_ok d r h e =
    let p =
      gates_of-AllPassed (is_terminal b d.metadata)
        (agrees b detected expected d.cloud d.operational) artifacts_ok r.safe r.kept
        (is_empty r.violations) r.clean
        (coverage_status warned (kubernetes_percent b d) t.min_kubernetes_coverage)
        (cloud_gates b expected t.min_cloud_coverage d) (budget_status r.metrics) e in
    let (safe, kept, violations, metrics) = readings_lem b t expected d r h in
    let (cloud, copy) =
      is_protected-IsFree b d.cloud d.comprehensive (kept ∙ ap ok p.kept_passed) in
    record {
      completed = terminal_lem b d.metadata p.terminal_passed;
      provider = agrees_lem b detected expected d.cloud d.operational p.agreed_passed;
      artifacts = p.intact_passed;
      read_only_reports = is_read_only-All b d (safe ∙ ap ok p.safe_passed);
      protected_cloud = cloud;
      protected_copy = copy;
      no_violation = violations ∙ ap ok (no_more r.violations p.applied_passed);
      coverage =
          coverage_lem warned (kubernetes_percent b d) t.min_kubernetes_coverage refl
            p.coverage_passed;
      cloud_evidence =
          cloud_lem (expected == "generic-kubernetes") (cloud_state b d) (cloud_percent b d)
            t.min_cloud_coverage p.cloud_passed;
      performance = (r.metrics, metrics, budget_lem r.metrics p.performance_passed);
    }

-- For any Python functions on values: if the evaluation returns a report that is ready for release,
-- the collection is completed and from the expected provider, its artifacts are valid, every report
-- is read-only, no key of the cloud evidence is forbidden at any depth, no rule applies to another
-- provider, coverage reaches its minimum, the cloud API is available where there is one, and each
-- metric is there and within its limit.
pub evaluate-IsCertified :
    (b : Builtins) (t : Thresholds) (detected expected : String) (artifacts_ok : Bool)
    (d : Documents) (report : Report)
    → evaluate b t detected expected artifacts_ok d ≡ ok report
    → report.release_ready ≡ true
    → IsCertified b t detected expected artifacts_ok d
unfolding evaluate report_of
evaluate-IsCertified b t detected expected artifacts_ok d report h ready =
    let (r, e, h1) = returned (readings_of b t expected d) _ h in
    certified b t detected expected artifacts_ok d r e
      (ap (λ (x : Report). x.release_ready) (ok_inj h1) ∙ ready)
