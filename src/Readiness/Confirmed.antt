-- ===== src/Readiness/Confirmed.antt =====
-- A GO rests on a file of manual evidence that is valid.
use k8s_lab_vmware.Prelude.{
  ℕ, String, List, ◌≡◌, refl, ◌∙◌, ap, true, false, Option, none, some, Bool-cases, inl, inr,
}
use k8s_lab_vmware.Prelude.Result.{ok, err-ne-ok, ok_inj, returned}
use k8s_lab_vmware.Json.{Value, object, Fields}
use k8s_lab_vmware.Readiness.{Status, Manual, is_yes, Probe, StateData, go, aggregate_readiness}
use k8s_lab_vmware.Readiness.Evidence.{is_valid, manual_evidence}
use k8s_lab_vmware.Readiness.Go.{aggregate_readiness-IsGo}

false-ne-true : false ≡ true → ⊥
false-ne-true h = cc

confirmed_by :
    (file : Option Value) (m : Manual)
    → manual_evidence file ≡ ok m
    → is_yes m.dns_validated ≡ true
    → (fs : Fields) × (file ≡ some (object fs)) × (is_valid fs ≡ ok true)
unfolding manual_evidence
confirmed_by none m h dns =
    absurd (false-ne-true (ap (λ (x : Manual). is_yes x.dns_validated) (ok_inj h) ∙ dns))
confirmed_by (some (object fs)) m h dns =
    let (fits, e, h1) = returned (is_valid fs) _ h in
    elim (Bool-cases fits) [
      | inl t ↦ (fs, refl, e ∙ ap ok t)
      | inr f ↦
          absurd (
            false-ne-true (ap (λ (x : Manual). is_yes x.dns_validated) (ok_inj (rw f at h1)) ∙ dns))
    ]
confirmed_by (some v) m h dns = absurd (err-ne-ok h)

-- For any states and evidence of the cluster: a verdict GO on the manual evidence of a file comes
-- from a file that is there, holds a dictionary, and is valid.
pub go-valid :
    (max_latency : ℕ) (configuration traffic : Status) (node_state : String) (d : StateData)
    (file : Option Value) (m : Manual) (probes : List Probe)
    → manual_evidence file ≡ ok m
    → aggregate_readiness max_latency configuration traffic node_state d m probes ≡ go
    → (fs : Fields) × (file ≡ some (object fs)) × (is_valid fs ≡ ok true)
go-valid max_latency configuration traffic node_state d file m probes h g =
    let is_go =
      aggregate_readiness-IsGo max_latency configuration traffic node_state d m probes g in
    confirmed_by file m h is_go.dns
