-- ===== src/Sequential/FanIn.antt =====
-- Fan-in nodes in include/pb/runtime/sequential.hpp: every case whose predicate holds runs, and each
-- case leaves its outcome in its own slot.
use pipeline_c.Prelude.{ℕ, suc, ◌+◌, Bool, true, false, not, List, [], ◌∷◌, codes, length}
use pipeline_c.Error.{StageId, Error}
use pipeline_c.Result.{Result, ok, err}
use pipeline_c.Observer.{
  on_case_selected, on_case_skipped, on_case_failed, on_fan_in_started, on_fan_in_case_scheduled,
  on_fan_in_case_completed, on_fan_in_completed, Run, pure, notify, ◌>>=◌, ◌>>◌,
}
use pipeline_c.Stage.{
  FanInCaseResult, Value, results, Callable, Case, BranchNode, StageStoragePolicy,
  branch_child_stage_id,
}
use pipeline_c.Sequential.Calls.{notify_stage_start, invoke, mark_branch_error}
use pipeline_c.Sequential.Branch.{evaluate_predicate}
use pipeline_c.Sequential.Settling.{
  mark_fan_in_case_failed, default_slot, is_failed, Tally, no_tally, count_stage,
  settle_fan_in_stage,
}

-- What a run over the cases leaves.
pub record FanInRun (S A : Type 0) : Type 0 where
  pub outcome : Result Unit Error
  pub cases : List (Case S A)
  pub slots : List (FanInCaseResult A)
  pub tally : Tally

-- What one case leaves.
pub record CaseRun (S A : Type 0) : Type 0 where
  pub outcome : Result Unit Error
  pub case : Case S A
  pub slot : FanInCaseResult A
  pub tally : Tally

-- The slots of an aggregate that no case has filled, from an index on.
abbrev pub default_slots : {S A : Type 0} → ℕ → List (Case S A) → List (FanInCaseResult A)
default_slots index [] = []
default_slots index (c ∷ cases) = default_slot index ∷ default_slots (suc index) cases

abbrev pub aggregate_result :
    {A : Type 0} → List (FanInCaseResult A) → Result Unit Error → Result (Value A) Error
aggregate_result slots (ok _) = ok (results slots)
aggregate_result slots (err e) = err e

module _ {S A : Type 0} where
  -- `evaluate_fan_in_predicate` has the steps of a branch's predicate.
  abbrev pub evaluate_fan_in_predicate :
      StageStoragePolicy
      → StageId
      → Callable S A Bool
      → Value A
      → Run (Result Bool Error × Callable S A Bool)
  evaluate_fan_in_predicate policy predicate_id predicate input =
      evaluate_predicate policy predicate_id predicate input

  -- `run_fan_in_case_stage`; it returns `{}` on each of its paths
  unfoldable pub run_fan_in_case_stage :
      StageStoragePolicy
      → (branch_id branch_stage_id : StageId) → Callable S A A
      → ℕ
      → Value A
      → FanInCaseResult A
      → Run (Result Unit Error × Callable S A A × FanInCaseResult A)
  run_fan_in_case_stage policy branch_id branch_stage_id branch_stage case_index input slot = do
    notify_stage_start branch_stage_id
    let (o, branch_stage') = invoke policy branch_stage input
    slot' ← settle_fan_in_stage branch_id branch_stage_id case_index o slot
    pure (ok tt, branch_stage', slot')

  -- `run_fan_in_cases` once the predicate is evaluated, up to its recursive call
  unfoldable pub decide_fan_in_case :
      StageStoragePolicy
      → (branch_id predicate_id : StageId) → Value A
      → ℕ
      → Case S A
      → FanInCaseResult A
      → Tally
      → Result Bool Error
      → Run (CaseRun S A)
  decide_fan_in_case policy branch_id predicate_id input case_index c slot tally (err e) = do
    let slot' = mark_fan_in_case_failed e slot
    let tally' = record tally { failed_count = tally.failed_count + 1 }
    notify (on_case_failed branch_id case_index predicate_id e)
    pure (record { outcome = ok tt; case = c; slot = slot'; tally = tally' })
  decide_fan_in_case policy branch_id predicate_id input case_index c slot tally (ok true) = do
    let branch_stage_id = branch_child_stage_id branch_id c.stage case_index (codes "stage")
    let selected = record tally { selected_count = tally.selected_count + 1 }
    notify (on_case_selected branch_id case_index predicate_id)
    notify (on_fan_in_case_scheduled branch_id case_index branch_stage_id)
    (outcome, stage', slot') ←
        run_fan_in_case_stage policy branch_id branch_stage_id c.stage case_index input slot
    let case_succeeded = not (is_failed slot')
    notify (on_fan_in_case_completed branch_id case_index branch_stage_id case_succeeded)
    pure (record {
      outcome = outcome;
      case = record c { stage = stage' };
      slot = slot';
      tally = count_stage case_succeeded selected;
    })
  decide_fan_in_case policy branch_id predicate_id input case_index c slot tally (ok false) = do
    notify (on_case_skipped branch_id case_index predicate_id)
    pure (record { outcome = ok tt; case = c; slot = slot; tally = tally })

  -- `run_fan_in_cases` up to its recursive call
  unfoldable pub run_fan_in_case :
      StageStoragePolicy
      → (branch_id : StageId) → Value A
      → ℕ
      → Case S A
      → FanInCaseResult A
      → Tally
      → Run (CaseRun S A)
  run_fan_in_case policy branch_id input case_index c slot tally = do
    let predicate_id = branch_child_stage_id branch_id c.predicate case_index (codes "predicate")
    (r, predicate') ← evaluate_fan_in_predicate policy predicate_id c.predicate input
    decide_fan_in_case policy branch_id predicate_id input case_index
        (record c { predicate = predicate' }) slot tally r

  -- the end of `run_fan_in_cases`: an error of a case stage ends the run over the cases
  unfoldable pub continue_cases :
      ℕ
      → List (Case S A)
      → (one : CaseRun S A) → (next : Run (FanInRun S A)) → Result Unit Error
      → Run (FanInRun S A)
  continue_cases case_index others one next (err e) = pure (record {
    outcome = err e;
    cases = one.case ∷ others;
    slots = one.slot ∷ default_slots (suc case_index) others;
    tally = one.tally;
  })
  continue_cases case_index others one next (ok _) = do
    rest ← next
    pure (record {
      outcome = rest.outcome;
      cases = one.case ∷ rest.cases;
      slots = one.slot ∷ rest.slots;
      tally = rest.tally;
    })

  -- `run_fan_in_cases`, over the cases and their slots side by side
  unfoldable pub run_fan_in_cases :
      StageStoragePolicy
      → (branch_id : StageId) → Value A
      → ℕ
      → List (Case S A)
      → Tally
      → Run (FanInRun S A)
  run_fan_in_cases policy branch_id input case_index [] tally =
      pure (record { outcome = ok tt; cases = []; slots = []; tally = tally })
  run_fan_in_cases policy branch_id input case_index (c ∷ cases) tally = do
    one ← run_fan_in_case policy branch_id input case_index c (default_slot case_index) tally
    continue_cases case_index cases one
        (run_fan_in_cases policy branch_id input (suc case_index) cases one.tally) one.outcome

  unfoldable pub run_fan_in_branch_impl :
      StageStoragePolicy
      → (branch_id : StageId) → BranchNode S A
      → Value A
      → Run (Result (Value A) Error × BranchNode S A)
  run_fan_in_branch_impl policy branch_id node input = do
    notify (on_fan_in_started branch_id (length node.cases))
    run ← run_fan_in_cases policy branch_id input 0 node.cases no_tally
    notify (
        on_fan_in_completed branch_id run.tally.selected_count run.tally.completed_count
          run.tally.failed_count)
    pure (aggregate_result run.slots run.outcome, record node { cases = run.cases })

  -- `run_fan_in_branch`, with or without storage
  unfoldable pub run_fan_in_branch :
      StageStoragePolicy
      → (branch_id : StageId) → BranchNode S A
      → Value A
      → Run (Result (Value A) Error × BranchNode S A)
  run_fan_in_branch policy branch_id node input = do
    (r, node') ← run_fan_in_branch_impl policy branch_id node input
    pure (mark_branch_error (codes "fan_in") r, node')
