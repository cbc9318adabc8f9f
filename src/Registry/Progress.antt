-- ===== src/Registry/Progress.antt =====
-- `calculate_progress` of tools/eks-assessment/src/collector_registry.py, and the entries of
-- collector-state.json that it reads.
pub mod Bounds
use k8s_lab_vmware.Prelude.{
  ℕ, ◌*◌, min, String, List, Bool, true, false, Option, none, some, ltb, if◌then◌else◌, sum_by,
  keep, Dict, lookup,
}
use k8s_lab_vmware.Prelude.Int.{ℤ}
use k8s_lab_vmware.Prelude.Rounding.{round_div}
use k8s_lab_vmware.Registry.{PlanItem}

-- The `--state` choices of the command line; a text that is none of them is `other`.
pub data RunState : Type 0 where
  pending running pass fail skipped cancelled timed_out : RunState
  other : String → RunState

-- `TERMINAL_STATES`
unfoldable pub is_terminal : RunState → Bool
is_terminal pass = true
is_terminal fail = true
is_terminal skipped = true
is_terminal cancelled = true
is_terminal timed_out = true
is_terminal _ = false

-- An entry of "collectors"; times are the texts of `utc_iso`.
pub record CollectorState : Type 0 where
  pub state : RunState
  pub attempts : ℕ
  pub started_at : Option String
  pub finished_at : Option String
  pub exit_code : Option ℤ
  pub detail : Option String

-- `str((collectors.get(id) or {}).get("state")) in TERMINAL_STATES`
abbrev pub entry_terminal : Option CollectorState → Bool
entry_terminal none = false
entry_terminal (some e) = is_terminal e.state

abbrev pub completed : Dict CollectorState → PlanItem → Bool
completed collectors item = entry_terminal (lookup item.id collectors)

unfoldable pub calculate_progress : List PlanItem → Dict CollectorState → ℕ
calculate_progress plan collectors =
    let total = sum_by (λ (i : PlanItem). i.weight) plan in
    let done = sum_by (λ (i : PlanItem). i.weight) (keep (completed collectors) plan) in
    if ltb 0 total then min 100 (round_div (done * 100) total) else 0
