-- ===== src/ThreadPoolBackend/Tests.antt =====
-- A parallel fan-in over three cases, whose tasks end in another order than they were posted, and
-- the theorems at it.
use pipeline_c.Prelude.{ℕ, ◌≡◌, refl, some, none, List, [], ◌∷◌, codes, text_eq, decimal, count_if}
use pipeline_c.Error.{Error, has_stage, has_message}
use pipeline_c.Result.{Result, ok, to_result, normalize_expected_error, error_message_from}
use pipeline_c.Observer.{on_fan_in_completed, send, pure, notify, ◌>>=◌}
use pipeline_c.Stage.{
  Value, atom, Node, stage, fan_in_branch, results, construct_stages_per_run, branch_child_stage_id,
  stage_id_for_fallback, completed, failed, skipped,
}
use pipeline_c.Sequential.Calls.{
  annotate_stage_error, observer_error_for, exception_error, unknown_exception_error,
  normalize_stage_error, notify_stage_failure, notify_stage_exception, invoke, conclude, settle,
}
use pipeline_c.Sequential.Branch.{evaluate_predicate}
use pipeline_c.Sequential.FanIn.{run_fan_in_case_stage, run_fan_in_branch}
use pipeline_c.Sequential.Settling.{
  mark_completed, mark_failed, is_failed, is_completed, fail_case, settle_case, settle_fan_in_stage,
}
use pipeline_c.Sample.{node, double, fan_in_id}
use pipeline_c.ThreadPoolBackend.{
  CancellationToken, stop_requested, add, finish_group, wait, post_fan_in_case, schedule_selected,
  schedule_decided, schedule_case, run_task, tally_fan_in_completions, final_tally, conclude_fan_in,
}
use pipeline_c.ThreadPoolBackend.System.{System, scheduling, executing, Reach, start, next, Steps}
use pipeline_c.ThreadPoolBackend.Slots.{parallel_slots, selected_sum}
use pipeline_c.ThreadPoolBackend.Agree.{fan_in-outcome, fan_in-agree}
use pipeline_c.Sequential.Engine.{try_run_after_result}
use pipeline_c.ThreadPoolBackend.Engine.{InvokeStage, RunStages}
use pipeline_c.ThreadPoolBackend.Whole.{RunStages-agree, RunStages-returns}
use pipeline_c.ThreadPoolBackend.Finish.{fan_in-finishes}
use pipeline_c.ThreadPoolBackend.Points.{Point, inside, behind, Ends, Point-Ends}

-- Opens what the steps compute with.
opened : Unit {0}
unfolding has_stage has_message to_result normalize_expected_error error_message_from send pure
    notify ◌>>=◌ branch_child_stage_id stage_id_for_fallback text_eq decimal annotate_stage_error
    observer_error_for exception_error unknown_exception_error normalize_stage_error
    notify_stage_failure notify_stage_exception invoke conclude settle evaluate_predicate
    mark_completed mark_failed is_failed is_completed fail_case settle_case settle_fan_in_stage
    run_fan_in_case_stage stop_requested add finish_group wait post_fan_in_case schedule_selected
    schedule_decided schedule_case run_task tally_fan_in_completions final_tally conclude_fan_in
opened = tt

abbrev no_cancel : ℕ → CancellationToken
no_cancel i = none

record Reached : Type 0 where
  system : System ℕ ℕ
  reach : Reach no_cancel fan_in_id (atom 30) node.cases (some []) system

abbrev all_scheduled : Reached
unfolding opened
all_scheduled = record {
  system = _;
  reach =
      next (next (next start (scheduling _ _ refl)) (scheduling _ _ refl)) (scheduling _ _ refl);
}

-- The last case is run first.
abbrev all_run : Reached
unfolding opened
all_run = record {
  system = _;
  reach = next (next all_scheduled.reach (executing (_ ∷ []) [] _ refl)) (executing [] [] _ refl);
}

all_run_result :
    (conclude_fan_in fan_in_id all_run.system.run (ok tt) all_run.system.sink).0
    ≡ ok (
        results (
          record { index = 0; state = completed; value = some 60; diagnostic = none }
          ∷ record { index = 1; state = skipped; value = none; diagnostic = none }
          ∷ record { index = 2; state = failed; value = none; diagnostic = some (codes "boom") }
          ∷ []))
unfolding opened
all_run_result = refl

fan_in-outcome_example :
    ((conclude_fan_in fan_in_id all_run.system.run (ok tt) all_run.system.sink).0
      ≡ ok (results (parallel_slots no_cancel fan_in_id (atom 30) 0 node.cases)))
    × ((final_tally all_run.system.run.slots all_run.system.run.tally).selected_count
        ≡ selected_sum no_cancel fan_in_id (atom 30) 0 node.cases)
    × ((final_tally all_run.system.run.slots all_run.system.run.tally).completed_count
        ≡ count_if is_completed (parallel_slots no_cancel fan_in_id (atom 30) 0 node.cases))
    × ((final_tally all_run.system.run.slots all_run.system.run.tally).failed_count
        ≡ count_if is_failed (parallel_slots no_cancel fan_in_id (atom 30) 0 node.cases))
    × ((conclude_fan_in fan_in_id all_run.system.run (ok tt) all_run.system.sink).1
        ≡ send
            (on_fan_in_completed fan_in_id
              (selected_sum no_cancel fan_in_id (atom 30) 0 node.cases)
              (count_if is_completed (parallel_slots no_cancel fan_in_id (atom 30) 0 node.cases))
              (count_if is_failed (parallel_slots no_cancel fan_in_id (atom 30) 0 node.cases)))
            all_run.system.sink)
unfolding opened
fan_in-outcome_example =
    fan_in-outcome no_cancel fan_in_id (atom 30) node.cases (some []) all_run.reach refl (ok tt)
      refl

fan_in-agree_example :
    (conclude_fan_in fan_in_id all_run.system.run (ok tt) all_run.system.sink).0
    ≡ (run_fan_in_branch construct_stages_per_run fan_in_id node (atom 30) none).0.0
unfolding opened
fan_in-agree_example =
    fan_in-agree no_cancel fan_in_id (atom 30) node (some []) all_run.reach (ok tt) none (λ i. refl)
      refl refl

fan_in-finishes_example :
    (t : System ℕ ℕ) × Steps no_cancel fan_in_id (atom 30) all_scheduled.system t
    × (t.unscheduled ≡ [])
    × (wait t.run.group ≡ some (ok tt))
fan_in-finishes_example =
    fan_in-finishes no_cancel fan_in_id (atom 30) node.cases (some []) all_scheduled.reach

abbrev pool_stages : List (Node ℕ ℕ)
pool_stages = stage double ∷ fan_in_branch node ∷ []

abbrev never : ℕ → ℕ → CancellationToken
never k i = none

abbrev pool_run :
    (last : Result (Value ℕ) Error) × RunStages never 0 pool_stages (atom 15) none last
pool_run = RunStages-returns never 0 pool_stages (atom 15) none

RunStages-agree_example :
    pool_run.0 ≡ (try_run_after_result construct_stages_per_run 0 pool_stages (atom 15) none).0.0
unfolding stop_requested
RunStages-agree_example =
    RunStages-agree never 0 pool_stages (atom 15) none none pool_run.0 (λ k j. refl) pool_run.1

-- Inside the fan-in, when its first case has been scheduled.
abbrev halfway : Point never 0 pool_stages (atom 15) none
unfolding opened InvokeStage
halfway = behind _ _ (atom 30) (refl, refl) refl (inside _ (next start (scheduling _ _ refl)))

Point-Ends_example :
    (last : Result (Value ℕ) Error) × Ends never halfway last
    × RunStages never 0 pool_stages (atom 15) none last
Point-Ends_example = Point-Ends never halfway
