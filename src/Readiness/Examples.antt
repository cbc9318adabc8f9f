-- ===== src/Readiness/Examples.antt =====
-- A stateful application that is ready for the cutover, and one with a manual evidence that is no
-- dictionary.
use k8s_lab_vmware.Prelude.{String, List, [], ◌∷◌, ◌≡◌, refl, true, false, some, mem}
use k8s_lab_vmware.Prelude.Result.{ok, err}
use k8s_lab_vmware.Json.Access.{attribute_error}
use k8s_lab_vmware.Json.{boolean, text, object, array, nil, Fields, end, field, get}
use k8s_lab_vmware.Readiness.{
  passed, valid, Manual, Probe, answered, probe_state, run_probes, StateData, data_gates,
  data_state, readiness_gates, go, verdict_of, aggregate_readiness,
}
use k8s_lab_vmware.Readiness.Evidence.{
  only_keys, valid_replication, is_valid, manual_of, manual_evidence,
}
use k8s_lab_vmware.Readiness.Go.{IsGo, aggregate_readiness-IsGo}
use k8s_lab_vmware.Readiness.Confirmed.{go-valid}

abbrev yes : String → Fields → Fields
yes key rest = field key (boolean true) rest

abbrev evidence : Fields
evidence = field "schemaVersion" (text "1.0") (
    yes "readOnly" (
      field "generatedAt" (text "2025-01-01") (
        yes "dnsValidated" (
          yes "loadBalancerValidated" (
            yes "restoreTested" (
              yes "schemaBackwardCompatible" (
                yes "rollbackAvailable"
                  (field "dataReplication" (object (field "state" (text "READY") end)) end))))))))

abbrev manual : Manual
manual = manual_of valid evidence

evidence-read : manual_evidence (some (object evidence)) ≡ ok manual
unfolding manual_evidence is_valid valid_replication only_keys get mem
evidence-read = refl

list-raises : manual_evidence (some (array nil)) ≡ err attribute_error
unfolding manual_evidence
list-raises = refl

abbrev database : StateData
database = record {
  has_stateful = true;
  has_jobs = false;
  claim_phases = "Bound" ∷ [];
  backup_phases = "completed" ∷ [];
  snapshots_ready = true ∷ [];
}

abbrev probes : List Probe
probes = answered 200 150 ∷ answered 301 90 ∷ []

database-ready : aggregate_readiness 20000 passed passed "PASS" database manual probes ≡ go
unfolding aggregate_readiness readiness_gates verdict_of data_state data_gates run_probes
    probe_state get mem
database-ready = refl

aggregate_readiness-IsGo_example : IsGo passed "PASS" database manual probes
aggregate_readiness-IsGo_example =
    aggregate_readiness-IsGo 20000 passed passed "PASS" database manual probes database-ready

go-valid_example :
    (fs : Fields) × (some (object evidence) ≡ some (object fs)) × (is_valid fs ≡ ok true)
go-valid_example =
    go-valid 20000 passed passed "PASS" database (some (object evidence)) manual probes
      evidence-read database-ready
