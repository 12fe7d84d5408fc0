-- ===== src/ThreadPoolBackend.antt =====
-- include/pb/runtime/thread_pool_backend.hpp (and the token of include/pb/runtime/cancellation.hpp):
-- a fan-in whose selected cases are posted to a thread pool. The observer's lock makes each event
-- one step; what one thread does between two of its events is not told apart here.
pub mod System
pub mod Slots
pub mod Filling
pub mod Invariant
pub mod Reached
pub mod Agree
pub mod Finish
pub mod Engine
pub mod Whole
pub mod Points
mod Tests
use pipeline_c.Prelude.{
  ℕ, suc, ◌+◌, ◌-◌, Bool, true, false, not, Option, none, some, List, [], ◌∷◌, ◌++◌, length,
  get_elem?, set, ltb, ◌==◌, if◌then◌else◌, codes, Text,
}
use pipeline_c.Error.{exception, no_stage, StageId, Error}
use pipeline_c.Result.{Result, ok, err}
use pipeline_c.Observer.{
  on_case_selected, on_case_skipped, on_case_failed, on_fan_in_started, on_fan_in_case_scheduled,
  on_fan_in_case_completed, on_fan_in_completed, Run, pure, notify, ◌>>=◌, ◌>>◌,
}
use pipeline_c.Stage.{
  FanInCaseResult, Value, results, Case, construct_stages_per_run, branch_child_stage_id,
}
use pipeline_c.Sequential.FanIn.{evaluate_fan_in_predicate, run_fan_in_case_stage, aggregate_result}
use pipeline_c.Sequential.Settling.{
  mark_fan_in_case_failed, default_slot, mark_failed, is_failed, is_completed, Tally,
}

-- `cancellation_token`: no flag, or what the flag reads.
abbrev pub CancellationToken : Type 0
CancellationToken = Option Bool

unfoldable pub stop_requested : CancellationToken → Bool
stop_requested none = false
stop_requested (some flag) = flag

-- `fan_in_task_group_state`
pub record TaskGroup : Type 0 where
  pub pending : ℕ
  pub first_error : Option Error

abbrev pub new_group : TaskGroup
new_group = record { pending = 0; first_error = none }

unfoldable pub add : TaskGroup → TaskGroup
add group = record group { pending = group.pending + 1 }

abbrev pub keep_first : Option Error → Result Unit Error → Option Error
keep_first none (err e) = some e
keep_first first_error outcome = first_error

unfoldable pub finish_group : Result Unit Error → TaskGroup → TaskGroup
finish_group outcome group = record {
  pending = if ltb 0 group.pending then group.pending - 1 else group.pending;
  first_error = keep_first group.first_error outcome;
}

abbrev pub group_result : Option Error → Result Unit Error
group_result none = ok tt
group_result (some e) = err e

-- `wait`, which blocks while tasks are pending
unfoldable pub wait : TaskGroup → Option (Result Unit Error)
wait group = if group.pending == 0 then some (group_result group.first_error) else none

-- A case that was posted to the pool, with its index.
abbrev pub Task : (S A : Type 0) → Type 0
Task S A = ℕ × Case S A

-- What `run_parallel_fan_in_branch` and its tasks share, and the tasks that the pool has yet to run.
pub record ParallelRun (S A : Type 0) : Type 0 where
  pub slots : List (FanInCaseResult A)
  pub tally : Tally
  pub group : TaskGroup
  pub posted : List (Task S A)

abbrev pub slot_at : {A : Type 0} → List (FanInCaseResult A) → ℕ → FanInCaseResult A
slot_at slots i = elim (get_elem? slots i) [ some slot ↦ slot | none ↦ default_slot i ]

module _ {S A : Type 0} where
  -- `post_fan_in_case`: a pool that is stopped throws, and the group keeps the error
  unfoldable pub post_fan_in_case :
      (pool_stopped : Bool) → ℕ → Case S A → ParallelRun S A → ParallelRun S A
  post_fan_in_case pool_stopped case_index c run =
      let group = add run.group in
      if pool_stopped
      then record run {
        group =
            finish_group
              (err (record {
                stage = no_stage;
                category = exception;
                message = codes "post on stopped thread_pool";
              }))
              group;
      }
      else record run { group = group; posted = run.posted ++ (case_index, c) ∷ [] }

  -- `schedule_fan_in_cases` where the predicate holds
  unfoldable pub schedule_selected :
      (cancelled pool_stopped : Bool)
      → (branch_id predicate_id : StageId) → ℕ
      → Case S A
      → ParallelRun S A
      → Run (ParallelRun S A)
  schedule_selected true pool_stopped branch_id predicate_id case_index c run = do
    notify (on_case_skipped branch_id case_index predicate_id)
    pure run
  schedule_selected false pool_stopped branch_id predicate_id case_index c run = do
    let tally = record run.tally { selected_count = run.tally.selected_count + 1 }
    notify (on_case_selected branch_id case_index predicate_id)
    notify (
        on_fan_in_case_scheduled branch_id case_index
          (branch_child_stage_id branch_id c.stage case_index (codes "stage")))
    pure (post_fan_in_case pool_stopped case_index c (record run { tally = tally }))

  -- `schedule_fan_in_cases` once the predicate is evaluated, up to its recursive call
  unfoldable pub schedule_decided :
      CancellationToken
      → (pool_stopped : Bool) (branch_id predicate_id : StageId) → ℕ
      → Case S A
      → ParallelRun S A
      → Result Bool Error
      → Run (ParallelRun S A)
  schedule_decided cancel pool_stopped branch_id predicate_id case_index c run (err e) = do
    let slots = set run.slots case_index (mark_fan_in_case_failed e (slot_at run.slots case_index))
    let tally = record run.tally { failed_count = run.tally.failed_count + 1 }
    notify (on_case_failed branch_id case_index predicate_id e)
    pure (record run { slots = slots; tally = tally })
  schedule_decided cancel pool_stopped branch_id predicate_id case_index c run (ok true) =
      schedule_selected (stop_requested cancel) pool_stopped branch_id predicate_id case_index c run
  schedule_decided cancel pool_stopped branch_id predicate_id case_index c run (ok false) = do
    notify (on_case_skipped branch_id case_index predicate_id)
    pure run

  -- `schedule_fan_in_cases` up to its recursive call
  unfoldable pub schedule_case :
      CancellationToken
      → (pool_stopped : Bool) (branch_id : StageId) → Value A
      → ℕ
      → Case S A
      → ParallelRun S A
      → Run (ParallelRun S A)
  schedule_case cancel pool_stopped branch_id input case_index c run = do
    let predicate_id = branch_child_stage_id branch_id c.predicate case_index (codes "predicate")
    (r, _) ← evaluate_fan_in_predicate construct_stages_per_run predicate_id c.predicate input
    schedule_decided cancel pool_stopped branch_id predicate_id case_index c run r

  -- the task of `post_fan_in_case`, run by a worker
  unfoldable pub run_task :
      (branch_id : StageId) → Value A → Task S A → ParallelRun S A → Run (ParallelRun S A)
  run_task branch_id input (case_index, c) run = do
    let branch_stage_id = branch_child_stage_id branch_id c.stage case_index (codes "stage")
    (stage_result, _, slot) ←
        run_fan_in_case_stage construct_stages_per_run branch_id branch_stage_id c.stage case_index
          input (slot_at run.slots case_index)
    notify (on_fan_in_case_completed branch_id case_index branch_stage_id (not (is_failed slot)))
    pure (record run {
      slots = set run.slots case_index slot;
      group = finish_group stage_result run.group;
    })

-- `tally_fan_in_completions`
unfoldable pub tally_fan_in_completions : {A : Type 0} → List (FanInCaseResult A) → Tally → Tally
tally_fan_in_completions [] tally = tally
tally_fan_in_completions (slot ∷ slots) tally = tally_fan_in_completions slots (
    if is_completed slot
    then record tally { completed_count = tally.completed_count + 1 }
    else tally)

-- the counts that `run_parallel_fan_in_branch` reports behind the wait
unfoldable pub final_tally : {A : Type 0} → List (FanInCaseResult A) → Tally → Tally
final_tally slots tally =
    let counted = tally_fan_in_completions slots tally in
    record counted {
      failed_count = counted.failed_count + (counted.selected_count - counted.completed_count);
    }

-- `run_parallel_fan_in_branch` behind the wait, which gave `wait_result`
unfoldable pub conclude_fan_in :
    {S A : Type 0} → StageId → ParallelRun S A → Result Unit Error → Run (Result (Value A) Error)
conclude_fan_in branch_id run wait_result = do
  let tally = final_tally run.slots run.tally
  notify
      (on_fan_in_completed branch_id tally.selected_count tally.completed_count tally.failed_count)
  pure (aggregate_result run.slots wait_result)
