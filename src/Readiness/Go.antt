-- ===== src/Readiness/Go.antt =====
-- What the verdict GO has shown of the cluster.
use k8s_lab_vmware.Prelude.{
  ℕ, ◌≤◌, ◌<◌, String, List, [], ◌∷◌, map, ◌≡◌, ◌⊎◌, refl, Bool, true, false, not, ◌&&◌, ◌||◌,
  Option, none, some, if◌then◌else◌, ◌==◌, any, all, is_empty, mem, All, inl, inr, arith, eq_iff,
  Bool-cases,
}
use k8s_lab_vmware.Readiness.{
  Status, passed, warned, failed, unknown, evidence_unavailable, not_applicable, Gate, gate,
  is_failed, is_warned, is_unknown, is_unavailable, Manual, is_yes, is_no, Probe, refused, answered,
  probe_state, run_probes, StateData, declared, replication_status, data_gates, any_mandatory,
  data_state, node_status, configuration_status, probe_gate, readiness_gates, go, verdict_of,
  aggregate_readiness,
}

-- A gate that does not block GO.
abbrev clear : Gate → Bool
clear g =
    not g.mandatory || not (is_failed g.status || (is_unknown g.status || is_unavailable g.status))

verdict_clear : (gates : List Gate) → verdict_of gates ≡ go → all clear gates ≡ true
unfolding verdict_of
verdict_clear [] h = refl
verdict_clear (g ∷ gates) h = ground (arith, verdict_clear gates)

-- The data of a stateful application: claims are bound, a backup is there and none failed, and
-- replication, restore, schema and rollback are confirmed.
pub record IsSafeData (d : StateData) (m : Manual) : Type 0 where
  pub bound : all (λ phase. phase == "Bound") d.claim_phases ≡ true
  pub backed_up :
      (is_empty d.backup_phases ≡ false)
      × (any (λ phase. mem phase ("failed" ∷ "failedvalidation" ∷ [])) d.backup_phases ≡ false)
  pub replicated : m.replication_ready ≡ true
  pub restored : is_yes m.restore_tested ≡ true
  pub compatible : is_yes m.schema_backward_compatible ≡ true
  pub rollback : is_yes m.rollback_available ≡ true

all-All : {A : Type 0} (p : A → Bool) (xs : List A) → all p xs ≡ true → All (λ x. p x ≡ true) xs
all-All p [] h = tt
all-All p (x ∷ xs) h = (ground arith, all-All p xs (ground arith))

-- A gate of the stateful data that does not hold back its state.
abbrev unblocked : Gate → Bool
unblocked g = not g.mandatory || not (is_failed g.status || is_unknown g.status)

all-unblocked :
    (gates : List Gate)
    → any_mandatory is_failed gates ≡ false
    → any_mandatory is_unknown gates ≡ false
    → all unblocked gates ≡ true
all-unblocked [] f u = refl
all-unblocked (g ∷ gates) f u = ground (arith, all-unblocked gates)

state_lem :
    (failing missing : Bool)
    → (not (
        is_failed (if failing then failed else if missing then unknown else passed)
        || (is_unknown (if failing then failed else if missing then unknown else passed)
            || is_unavailable (if failing then failed else if missing then unknown else passed))))
      ≡ true
    → (failing ≡ false) × (missing ≡ false)
state_lem true missing h = cc
state_lem false true h = cc
state_lem false false h = (refl, refl)

data_state-unblocked :
    (d : StateData) (m : Manual)
    → clear (gate (data_state d m) true) ≡ true
    → All (λ g. unblocked g ≡ true) (data_gates d m)
unfolding data_state
data_state-unblocked d m h =
    let gates = data_gates d m in
    let (f, u) = state_lem (any_mandatory is_failed gates) (any_mandatory is_unknown gates) h in
    all-All unblocked gates (all-unblocked gates f u)

declared_lem : (o : Option Bool) → unblocked (gate (declared o true) true) ≡ true → is_yes o ≡ true
declared_lem none h = cc
declared_lem (some true) h = refl
declared_lem (some false) h = cc

replication_lem :
    (m : Manual)
    → unblocked (gate (replication_status m true) true) ≡ true
    → m.replication_ready ≡ true
replication_lem m h = ground arith

bound_lem :
    (phases : List String)
    → any (λ phase. not (phase == "Bound")) phases ≡ false
    → all (λ phase. phase == "Bound") phases ≡ true
bound_lem [] h = refl
bound_lem (p ∷ ps) h = ground (arith, bound_lem ps)

failed_lem :
    (test : Bool) → unblocked (gate (if test then failed else passed) true) ≡ true → test ≡ false
failed_lem test h = ground arith

backup_lem :
    (broken bare : Bool)
    → unblocked (
        gate
          (if broken
            then failed
            else if not bare
            then passed
            else if true
            then unknown
            else not_applicable)
          true)
      ≡ true
    → (bare ≡ false) × (broken ≡ false)
backup_lem true bare h = cc
backup_lem false true h = cc
backup_lem false false h = (refl, refl)

data_lem :
    (d : StateData) (m : Manual)
    → d.has_stateful ≡ true
    → All (λ g. unblocked g ≡ true) (data_gates d m)
    → IsSafeData d m
unfolding data_gates
data_lem d m stateful
      (claims, (backups, (snapshots, (replication, (restore, (schema, (jobs, (rollback, u)))))))) =
    record {
      bound =
          bound_lem d.claim_phases
            (failed_lem (any (λ phase. not (phase == "Bound")) d.claim_phases) claims);
      backed_up =
          backup_lem (any (λ phase. mem phase ("failed" ∷ "failedvalidation" ∷ [])) d.backup_phases)
            (is_empty d.backup_phases) (rw stateful at backups);
      replicated = replication_lem m (rw stateful at replication);
      restored = declared_lem m.restore_tested (rw stateful at restore);
      compatible = declared_lem m.schema_backward_compatible (rw stateful at schema);
      rollback = declared_lem m.rollback_available (rw stateful at rollback);
    }

-- Every probe was answered with a status from 200 to 399.
abbrev pub IsAnswered : Probe → Type 0
IsAnswered refused = ⊥
IsAnswered (answered http_status latency) = (200 ≤ http_status) × (http_status < 400)

probe_lem :
    (max_latency : ℕ) (p : Probe) → is_failed (probe_state max_latency p) ≡ false → IsAnswered p
unfolding probe_state
probe_lem max_latency refused h = cc
probe_lem max_latency (answered s latency) h = ground arith

probes_lem :
    (max_latency : ℕ) (ps : List Probe)
    → any is_failed (map (probe_state max_latency) ps) ≡ false
    → All IsAnswered ps
probes_lem max_latency [] h = tt
probes_lem max_latency (p ∷ ps) h =
    (probe_lem max_latency p (ground arith), probes_lem max_latency ps (ground arith))

run_probes-IsAnswered :
    (max_latency : ℕ) (ps : List Probe)
    → clear (probe_gate (run_probes max_latency ps)) ≡ true
    → All IsAnswered ps
unfolding run_probes
run_probes-IsAnswered max_latency [] h = tt
run_probes-IsAnswered max_latency (p ∷ ps) h = probes_lem max_latency (p ∷ ps) (
    no_failure (any is_failed (map (probe_state max_latency) (p ∷ ps)))
      (any is_warned (map (probe_state max_latency) (p ∷ ps))) h)
  where
    no_failure :
        (f w : Bool)
        → clear (gate (if f then failed else if w then warned else passed) true) ≡ true
        → f ≡ false
    no_failure f w h = ground arith

-- Configuration without missing references, a node health of PASS or WARN, data that is safe where
-- there is stateful data, a confirmed cutover, and probes that were answered.
pub record IsGo (configuration : Status) (node_state : String) (d : StateData) (m : Manual)
    (probes : List Probe) : Type 0 where
  pub configured :
      (configuration ≡ passed) ⊎ ((configuration ≡ warned) ⊎ (configuration ≡ not_applicable))
  pub nodes : (node_state ≡ "PASS") ⊎ (node_state ≡ "WARN")
  pub safe_data : d.has_stateful ≡ true → IsSafeData d m
  pub dns : is_yes m.dns_validated ≡ true
  pub load_balancer : is_yes m.load_balancer_validated ≡ true
  pub answered_probes : All IsAnswered probes

mandatory_lem :
    (first second : Bool) (s : Status)
    → first ≡ true
    → clear (gate s (first || second)) ≡ true
    → clear (gate s true) ≡ true
mandatory_lem true second s e h = h
mandatory_lem false second s e h = cc

configuration_lem :
    (s : Status)
    → clear (gate (configuration_status s) true) ≡ true
    → (s ≡ passed) ⊎ ((s ≡ warned) ⊎ (s ≡ not_applicable))
configuration_lem passed h = inl refl
configuration_lem warned h = inr (inl refl)
configuration_lem not_applicable h = inr (inr refl)
configuration_lem failed h = cc
configuration_lem unknown h = cc
configuration_lem evidence_unavailable h = cc

node_lem : (s : String) → clear (gate (node_status s) true) ≡ true → (s ≡ "PASS") ⊎ (s ≡ "WARN")
node_lem s h = elim (Bool-cases (s == "PASS")) [
  | inl e ↦ inl ((eq_iff s "PASS").0 e)
  | inr e ↦ elim (Bool-cases (s == "WARN")) [
    | inl w ↦ inr ((eq_iff s "WARN").0 w)
    | inr w ↦ absurd (ground (arith, e, w, h))
  ]
]

cutover_lem :
    (dns balancer : Option Bool)
    → clear (
        gate
          (if is_yes dns && is_yes balancer
            then passed
            else if is_no dns || is_no balancer
            then failed
            else unknown)
          true)
      ≡ true
    → (is_yes dns ≡ true) × (is_yes balancer ≡ true)
cutover_lem dns balancer h = (ground arith, ground arith)

-- For any states of the configuration and traffic and any evidence: a verdict GO has a configuration
-- without missing references or evidence, nodes that are PASS or WARN, confirmed DNS and load
-- balancer, only answered probes, and for stateful workloads bound claims, backups of which none
-- failed, and confirmed replication, restore, schema and rollback.
pub aggregate_readiness-IsGo :
    (max_latency : ℕ) (configuration traffic : Status) (node_state : String) (d : StateData)
    (m : Manual) (probes : List Probe)
    → aggregate_readiness max_latency configuration traffic node_state d m probes ≡ go
    → IsGo configuration node_state d m probes
unfolding aggregate_readiness readiness_gates
aggregate_readiness-IsGo max_latency configuration traffic node_state d m probes h =
    let gates =
      readiness_gates configuration traffic node_state d m (run_probes max_latency probes) in
    let (c, (t, (s, (n, (p, (k, rest)))))) = all-All clear gates (verdict_clear gates h) in
    let (dns, balancer) = cutover_lem m.dns_validated m.load_balancer_validated k in
    record {
      configured = configuration_lem configuration c;
      nodes = node_lem node_state n;
      safe_data = λ stateful. data_lem d m stateful (
          data_state-unblocked d m
            (mandatory_lem d.has_stateful d.has_jobs (data_state d m) stateful s));
      dns = dns;
      load_balancer = balancer;
      answered_probes = run_probes-IsAnswered max_latency probes p;
    }
