-- ===== src/Readiness.antt =====
-- tools/eks-assessment/src/blue_green_readiness.py: the manual evidence, the states of probes and of
-- stateful data, and the gates of `aggregate_readiness`. The states of the configuration and of the
-- traffic paths, and what is read of the cluster, are arguments.
pub mod Evidence
pub mod Go
pub mod Confirmed
mod Examples
use k8s_lab_vmware.Prelude.{
  ℕ, String, List, [], ◌∷◌, map, Bool, true, false, not, ◌&&◌, ◌||◌, Option, none, some,
  if◌then◌else◌, ◌==◌, any, is_empty, ltb, leb, mem,
}

pub data Status : Type 0 where
  passed warned failed unknown evidence_unavailable not_applicable : Status

pub record Gate : Type 0 where
  pub status : Status
  pub mandatory : Bool

abbrev pub gate : Status → Bool → Gate
gate status mandatory = record { status = status; mandatory = mandatory }

abbrev pub is_failed : Status → Bool
is_failed failed = true
is_failed _ = false

abbrev pub is_warned : Status → Bool
is_warned warned = true
is_warned _ = false

abbrev pub is_unknown : Status → Bool
is_unknown unknown = true
is_unknown _ = false

abbrev pub is_unavailable : Status → Bool
is_unavailable evidence_unavailable = true
is_unavailable _ = false

pub data ManualState : Type 0 where
  valid invalid not_provided : ManualState

-- What the gates read of the manual evidence; a value that is no Boolean is none.
pub record Manual : Type 0 where
  pub state : ManualState
  pub dns_validated : Option Bool
  pub load_balancer_validated : Option Bool
  pub restore_tested : Option Bool
  pub schema_backward_compatible : Option Bool
  pub singleton_jobs_controlled : Option Bool
  pub rollback_available : Option Bool
  pub replication_ready : Bool
  pub replication_failed : Bool

abbrev pub is_yes : Option Bool → Bool
is_yes (some true) = true
is_yes _ = false

abbrev pub is_no : Option Bool → Bool
is_no (some false) = true
is_no _ = false

-- An answer to a probe; latency is in tenths of a millisecond, as the code rounds it.
pub data Probe : Type 0 where
  refused : Probe
  answered : (http_status latency : ℕ) → Probe

unfoldable pub probe_state : (max_latency : ℕ) → Probe → Status
probe_state max_latency refused = failed
probe_state max_latency (answered http_status latency) =
    let succeeded = leb 200 http_status && ltb http_status 400 in
    if succeeded && leb latency max_latency then passed else if succeeded then warned else failed

-- `none` is DISABLED.
unfoldable pub run_probes : (max_latency : ℕ) → List Probe → Option Status
unfolding probe_state
run_probes max_latency [] = none
run_probes max_latency (p ∷ ps) =
    let states = map (probe_state max_latency) (p ∷ ps) in
    some (if any is_failed states then failed else if any is_warned states then warned else passed)

-- What `state_data_readiness` has found in the cluster.
pub record StateData : Type 0 where
  pub has_stateful : Bool
  pub has_jobs : Bool
  pub claim_phases : List String
  pub backup_phases : List String
  pub snapshots_ready : List Bool

abbrev pub declared : Option Bool → (has_stateful : Bool) → Status
declared o has_stateful =
    if is_yes o
    then passed
    else if is_no o
    then failed
    else if has_stateful
    then unknown
    else not_applicable

abbrev pub backup_status : StateData → Status
backup_status d =
    if any (λ phase. mem phase ("failed" ∷ "failedvalidation" ∷ [])) d.backup_phases
    then failed
    else if not (is_empty d.backup_phases)
    then passed
    else if d.has_stateful
    then unknown
    else not_applicable

abbrev pub snapshot_status : StateData → Status
snapshot_status d =
    if any not d.snapshots_ready
    then failed
    else if not (is_empty d.snapshots_ready)
    then passed
    else if not (is_empty d.claim_phases)
    then unknown
    else not_applicable

abbrev pub replication_status : Manual → (has_stateful : Bool) → Status
replication_status m has_stateful =
    if m.replication_ready
    then passed
    else if m.replication_failed
    then failed
    else if has_stateful
    then unknown
    else not_applicable

-- The phases of backups are in small letters.
unfoldable pub data_gates : StateData → Manual → List Gate
data_gates d m =
    gate (if any (λ phase. not (phase == "Bound")) d.claim_phases then failed else passed) true
    ∷ gate (backup_status d) d.has_stateful
    ∷ gate (snapshot_status d) (not (is_empty d.claim_phases))
    ∷ gate (replication_status m d.has_stateful) d.has_stateful
    ∷ gate (declared m.restore_tested d.has_stateful) d.has_stateful
    ∷ gate (declared m.schema_backward_compatible d.has_stateful) d.has_stateful
    ∷ gate
        (if is_yes m.singleton_jobs_controlled
          then passed
          else if d.has_jobs
          then unknown
          else not_applicable)
        d.has_jobs
    ∷ gate (declared m.rollback_available d.has_stateful) d.has_stateful
    ∷ []

abbrev pub any_mandatory : (Status → Bool) → List Gate → Bool
any_mandatory p gates = any (λ (g : Gate). g.mandatory && p g.status) gates

unfoldable pub data_state : StateData → Manual → Status
unfolding data_gates
data_state d m =
    let gates = data_gates d m in
    if any_mandatory is_failed gates
    then failed
    else if any_mandatory is_unknown gates
    then unknown
    else passed

abbrev pub node_status : String → Status
node_status node_state =
    if node_state == "PASS"
    then passed
    else if node_state == "CRIT"
    then failed
    else if node_state == "WARN"
    then warned
    else unknown

abbrev pub cutover_status : Manual → Status
cutover_status m =
    if is_yes m.dns_validated && is_yes m.load_balancer_validated
    then passed
    else if is_no m.dns_validated || is_no m.load_balancer_validated
    then failed
    else unknown

abbrev pub configuration_status : Status → Status
configuration_status evidence_unavailable = unknown
configuration_status s = s

abbrev pub is_not_applicable : Status → Bool
is_not_applicable not_applicable = true
is_not_applicable _ = false

abbrev pub probe_gate : Option Status → Gate
probe_gate none = gate not_applicable false
probe_gate (some s) = gate s true

abbrev pub manual_gate : ManualState → Gate
manual_gate invalid = gate failed true
manual_gate valid = gate passed false
manual_gate not_provided = gate not_applicable false

unfoldable pub readiness_gates :
    (configuration traffic : Status) (node_state : String)
    → StateData
    → Manual
    → Option Status
    → List Gate
unfolding data_state
readiness_gates configuration traffic node_state d m probes =
    gate (configuration_status configuration) true
    ∷ gate traffic (not (is_not_applicable traffic))
    ∷ gate (data_state d m) (d.has_stateful || d.has_jobs)
    ∷ gate (node_status node_state) true
    ∷ probe_gate probes
    ∷ gate (cutover_status m) true
    ∷ manual_gate m.state
    ∷ []

pub data Verdict : Type 0 where
  no_go undecided go : Verdict

unfoldable pub verdict_of : List Gate → Verdict
verdict_of gates =
    if any_mandatory is_failed gates
    then no_go
    else if any_mandatory (λ s. is_unknown s || is_unavailable s) gates
    then undecided
    else go

-- `aggregate_readiness` on what the other parts of `generate` return.
unfoldable pub aggregate_readiness :
    (max_latency : ℕ)
    → (configuration traffic : Status) (node_state : String) → StateData
    → Manual
    → List Probe
    → Verdict
unfolding readiness_gates verdict_of run_probes
aggregate_readiness max_latency configuration traffic node_state d m probes =
    verdict_of
      (readiness_gates configuration traffic node_state d m (run_probes max_latency probes))
