-- ===== src/Registry/Runs.antt =====
-- Tests of loading, of the progress and of collector-state.json, and the theorems at these inputs.
use k8s_lab_vmware.Prelude.{
  ℕ, ◌+◌, ◌*◌, List, [], ◌∷◌, ◌≡◌, ◌↔◌, ◌≤◌, ◌||◌, refl, true, none, some, mem, Dict, lookup, arith,
  keep, map, all, sum_by, count, ◌==◌, if◌then◌else◌,
}
use k8s_lab_vmware.Prelude.Int.{pos}
use k8s_lab_vmware.Prelude.Rounding.{round_div}
use k8s_lab_vmware.Prelude.Result.{ok}
use k8s_lab_vmware.Registry.{entry, PlanItem}
use k8s_lab_vmware.Registry.Load.{load_registry}
use k8s_lab_vmware.Registry.Load.Valid.{load_registry_iff, IsValid}
use k8s_lab_vmware.Registry.Progress.{
  RunState, running, pass, fail, is_terminal, CollectorState, completed, calculate_progress,
}
use k8s_lab_vmware.Registry.Progress.Bounds.{calculate_progress_mono, calculate_progress_near}
use k8s_lab_vmware.Registry.State.{
  State, init_state, update_state, should_run, runs, state_of, fresh,
}
use k8s_lab_vmware.Registry.State.Effects.{should_run-init_state, should_run-update_state, updated}
use k8s_lab_vmware.Registry.State.Invariant.{
  Mark, run_mark, run_marks, IsConsistent, init_state-IsConsistent, init_marks-IsConsistent,
  run_marks-attempts, run_mark-progress, attempts_of, starts,
}
use k8s_lab_vmware.Registry.Examples.{small, cli_plan}

small_loads : load_registry (map entry small) ≡ ok small
unfolding load_registry mem
small_loads = refl

load_registry_iff_example :
    (load_registry (map entry small) ≡ ok small)
    ↔ ((map entry small ≡ map entry small) × IsValid small)
load_registry_iff_example = load_registry_iff (map entry small) small

abbrev done : RunState → CollectorState
done s = record fresh { state = s; attempts = 1 }

abbrev before : Dict CollectorState
before = ("preflight", done pass) ∷ []

abbrev after : Dict CollectorState
after = ("preflight", done pass) ∷ ("discovery", done fail) ∷ []

more_done : (i : PlanItem) → completed before i ≡ true → completed after i ≡ true
unfolding lookup is_terminal
more_done i h = ground arith

calculate_progress_mono_example :
    (calculate_progress cli_plan before ≤ calculate_progress cli_plan after)
    × (calculate_progress cli_plan after ≤ 100)
calculate_progress_mono_example = calculate_progress_mono cli_plan before after more_done

abbrev plan : List PlanItem
plan =
    record {
      id = "preflight";
      label = "Validar ambiente";
      weight = 5;
      timeout_seconds = 90;
      required = true;
      dependencies = [];
    }
    ∷ record {
      id = "discovery";
      label = "Executar discovery";
      weight = 10;
      timeout_seconds = 900;
      required = true;
      dependencies = "preflight" ∷ [];
    }
    ∷ []

progress_runs : (calculate_progress plan before ≡ 33) × (calculate_progress plan after ≡ 100)
unfolding calculate_progress round_div lookup is_terminal
progress_runs = (refl, refl)

abbrev weight : List PlanItem → ℕ
weight items = sum_by (λ (i : PlanItem). i.weight) items

calculate_progress_near_example :
    (2 * (weight (keep (completed before) plan) * 100)
      ≤ 2 * (calculate_progress plan before * weight plan) + weight plan)
    × (2 * (calculate_progress plan before * weight plan)
        ≤ 2 * (weight (keep (completed before) plan) * 100) + weight plan)
    × (all (completed before) plan ≡ true → calculate_progress plan before ≡ 100)
calculate_progress_near_example = calculate_progress_near plan before (omega arith)

abbrev saved : State
saved = record {
  collection = "eks-1";
  created_at = "2026-01-01";
  updated_at = "2026-01-01";
  resumed_at = none;
  plan = plan;
  collectors = after;
  progress_percent = 100;
}

abbrev resumed : State
resumed = init_state "eks-1" "2026-01-02" (some saved) plan true true

should_run-init_state_example :
    should_run resumed "discovery" true
    ≡ ("discovery" == "preflight" || runs true (state_of (lookup "discovery" after)))
unfolding mem
should_run-init_state_example =
    should_run-init_state "eks-1" "2026-01-02" (some saved) plan true true "discovery" refl

abbrev start_discovery : Mark
start_discovery = record {
  now = "2026-01-03";
  collector = "discovery";
  state = running;
  exit_code = none;
  detail = "";
}

abbrev pass_discovery : Mark
pass_discovery = record start_discovery { state = pass; exit_code = some (pos 0) }

abbrev passed : State
passed = updated "2026-01-03" saved "discovery" pass (some (pos 0)) ""

marked_pass : update_state "2026-01-03" saved "discovery" pass (some (pos 0)) "" ≡ ok passed
unfolding update_state mem
marked_pass = refl

should_run-update_state_example :
    should_run passed "preflight" true
    ≡ (if "discovery" == "preflight" then runs true pass else should_run saved "preflight" true)
should_run-update_state_example =
    should_run-update_state "2026-01-03" saved passed "discovery" "preflight" pass (some (pos 0)) ""
      true marked_pass

init_marks-IsConsistent_example : IsConsistent (
    run_marks
      (init_state "eks-1" "2026-01-02" (some saved) plan true true)
      (start_discovery ∷ pass_discovery ∷ []))
init_marks-IsConsistent_example =
    init_marks-IsConsistent "eks-1" "2026-01-02" (some saved) plan true true
      (start_discovery ∷ pass_discovery ∷ [])

run_marks-attempts_example :
    attempts_of "discovery" (run_marks saved (start_discovery ∷ pass_discovery ∷ []))
    ≡ attempts_of "discovery" saved
      + count (starts "discovery") (start_discovery ∷ pass_discovery ∷ [])
unfolding mem
run_marks-attempts_example =
    run_marks-attempts (start_discovery ∷ pass_discovery ∷ []) saved "discovery" refl

run_mark-progress_example :
    (resumed.progress_percent ≤ (run_mark resumed pass_discovery).progress_percent)
    × ((run_mark resumed pass_discovery).progress_percent ≤ 100)
unfolding is_terminal
run_mark-progress_example =
    run_mark-progress pass_discovery resumed
      (init_state-IsConsistent "eks-1" "2026-01-02" (some saved) plan true true) refl
