-- ===== src/Readiness/Evidence.antt =====
-- `manual_evidence` of tools/eks-assessment/src/blue_green_readiness.py: the file that people write.
use k8s_lab_vmware.Prelude.{
  String, List, [], ◌∷◌, Bool, true, false, not, ◌&&◌, Option, none, some, if◌then◌else◌, ◌==◌, mem,
  all,
}
use k8s_lab_vmware.Prelude.Result.{Result, ok, err, ◌>>=◌}
use k8s_lab_vmware.Json.Access.{Raised, attribute_error, type_error, is_text}
use k8s_lab_vmware.Json.{Value, null, boolean, text, array, object, Fields, end, field, get}
use k8s_lab_vmware.Readiness.{ManualState, valid, invalid, not_provided, Manual}

abbrev pub manual_evidence_fields : List String
manual_evidence_fields =
    "schemaVersion" ∷ "generatedAt" ∷ "readOnly" ∷ "changeReference" ∷ "approvalReference"
    ∷ "dnsValidated" ∷ "loadBalancerValidated" ∷ "restoreTested" ∷ "schemaBackwardCompatible"
    ∷ "singletonJobsControlled" ∷ "rollbackAvailable" ∷ "pointOfNoReturn" ∷ "dataReplication" ∷ []

abbrev pub boolean_fields : List String
boolean_fields =
    "dnsValidated" ∷ "loadBalancerValidated" ∷ "restoreTested" ∷ "schemaBackwardCompatible"
    ∷ "singletonJobsControlled" ∷ "rollbackAvailable" ∷ []

-- `set(value).issubset(allowed)`
unfoldable pub only_keys : List String → Fields → Bool
only_keys allowed end = true
only_keys allowed (field k v fs) = mem k allowed && only_keys allowed fs

abbrev pub boolean_or_absent : Option Value → Bool
boolean_or_absent none = true
boolean_or_absent (some (boolean b)) = true
boolean_or_absent (some v) = false

abbrev pub filled_text : Option Value → Bool
filled_text (some (text s)) = not (s == "")
filled_text _ = false

abbrev pub is_true : Option Value → Bool
is_true (some (boolean b)) = b
is_true _ = false

-- A state that is a list or a dictionary cannot be looked up in the set.
abbrev pub replication_state : Option Value → Result Raised Bool
replication_state (some (text s)) = ok (mem s ("READY" ∷ "FAILED" ∷ "UNKNOWN" ∷ []))
replication_state (some (array vs)) = err type_error
replication_state (some (object fs)) = err type_error
replication_state _ = ok false

unfoldable pub valid_replication : Option Value → Result Raised Bool
unfolding get only_keys
valid_replication none = ok true
valid_replication (some null) = ok true
valid_replication (some (object fs)) = do
  known ← replication_state (get "state" fs)
  ok (known && only_keys ("state" ∷ "detail" ∷ []) fs)
valid_replication (some v) = ok false

unfoldable pub is_valid : Fields → Result Raised Bool
unfolding valid_replication
is_valid fs = do
  replication ← valid_replication (get "dataReplication" fs)
  ok (
      is_text (get "schemaVersion" fs) "1.0"
      && (is_true (get "readOnly" fs)
          && (filled_text (get "generatedAt" fs)
              && (only_keys manual_evidence_fields fs
                  && (all (λ k. boolean_or_absent (get k fs)) boolean_fields && replication)))))

abbrev pub boolean_at : String → Fields → Option Bool
boolean_at key fs = elim (get key fs) [ some (boolean b) ↦ some b | _ ↦ none ]

abbrev pub replication_is : String → Option Value → Bool
replication_is name (some (object fs)) = is_text (get "state" fs) name
replication_is name _ = false

abbrev pub manual_of : ManualState → Fields → Manual
manual_of state fs = record {
  state = state;
  dns_validated = boolean_at "dnsValidated" fs;
  load_balancer_validated = boolean_at "loadBalancerValidated" fs;
  restore_tested = boolean_at "restoreTested" fs;
  schema_backward_compatible = boolean_at "schemaBackwardCompatible" fs;
  singleton_jobs_controlled = boolean_at "singletonJobsControlled" fs;
  rollback_available = boolean_at "rollbackAvailable" fs;
  replication_ready = replication_is "READY" (get "dataReplication" fs);
  replication_failed = replication_is "FAILED" (get "dataReplication" fs);
}

-- `none` is no file. A file that does not hold a dictionary raises where its keys are read.
unfoldable pub manual_evidence : Option Value → Result Raised Manual
unfolding is_valid
manual_evidence none = ok (manual_of not_provided end)
manual_evidence (some (object fs)) = do
  fits ← is_valid fs
  ok (if fits then manual_of valid fs else manual_of invalid end)
manual_evidence (some (array vs)) = err attribute_error
manual_evidence (some (text s)) = err attribute_error
manual_evidence (some v) = err type_error
