-- ===== src/Sequential/Settling.antt =====
-- What a case of a fan-in leaves in its slot (`fan_in_case_result` of
-- include/pb/core/pipeline_state.hpp) and in the counts, from its stage's call on
-- (include/pb/runtime/sequential.hpp).
use pipeline_c.Prelude.{ℕ, ◌+◌, Bool, true, false, none, some, Text}
use pipeline_c.Error.{StageId, Error}
use pipeline_c.Result.{Result, ok, err, UserError, to_result}
use pipeline_c.Observer.{on_case_failed, Run, pure, notify, ◌>>◌}
use pipeline_c.Stage.{
  skipped, completed, failed, FanInCaseResult, Outcome, returned, thrown, thrown_unknown,
}
use pipeline_c.Sequential.Calls.{
  notify_stage_success, normalize_stage_error, notify_stage_failure, notify_stage_exception,
  exception_error, unknown_exception_error,
}

-- A slot before its case is looked at.
abbrev pub default_slot : {A : Type 0} → ℕ → FanInCaseResult A
default_slot index = record { index = index; state = skipped; value = none; diagnostic = none }

unfoldable pub mark_completed : {A : Type 0} → A → FanInCaseResult A → FanInCaseResult A
mark_completed value slot = record slot { state = completed; value = some value; diagnostic = none }

unfoldable pub mark_failed : {A : Type 0} → Text → FanInCaseResult A → FanInCaseResult A
mark_failed message slot = record slot { state = failed; value = none; diagnostic = some message }

abbrev pub mark_fan_in_case_failed :
    {A : Type 0} → (diagnostic : Error) → FanInCaseResult A → FanInCaseResult A
mark_fan_in_case_failed diagnostic slot = mark_failed diagnostic.message slot

unfoldable pub is_failed : {A : Type 0} → FanInCaseResult A → Bool
is_failed slot = elim slot.state [ skipped ↦ false | completed ↦ false | failed ↦ true ]

unfoldable pub is_completed : {A : Type 0} → FanInCaseResult A → Bool
is_completed slot = elim slot.state [ skipped ↦ false | completed ↦ true | failed ↦ false ]

-- `fan_in_case_tally`
pub record Tally : Type 0 where
  pub selected_count : ℕ
  pub completed_count : ℕ
  pub failed_count : ℕ

abbrev pub no_tally : Tally
no_tally = record { selected_count = 0; completed_count = 0; failed_count = 0 }

-- `++tally.completed` or `++tally.failed`, behind the stage of a selected case
unfoldable pub count_stage : (case_succeeded : Bool) → Tally → Tally
count_stage true tally = record tally { completed_count = tally.completed_count + 1 }
count_stage false tally = record tally { failed_count = tally.failed_count + 1 }

-- the steps of `run_fan_in_case_stage_with_arg` where a case fails, from its error
unfoldable pub fail_case :
    {A : Type 0}
    → (StageId → Error → Run Unit)
    → (branch_id branch_stage_id : StageId) → ℕ
    → Error
    → FanInCaseResult A
    → Run (FanInCaseResult A)
fail_case report branch_id branch_stage_id case_index branch_error slot = do
  let slot' = mark_failed branch_error.message slot
  report branch_stage_id branch_error
  notify (on_case_failed branch_id case_index branch_stage_id branch_error)
  pure slot'

-- behind the call: the `expected_like` branch or the plain one, and the `catch` blocks
unfoldable pub settle_case :
    {A : Type 0}
    → (branch_id branch_stage_id : StageId) → ℕ
    → Result A UserError
    → FanInCaseResult A
    → Run (FanInCaseResult A)
settle_case branch_id branch_stage_id case_index (ok a) slot = do
  let slot' = mark_completed a slot
  notify_stage_success branch_stage_id
  pure slot'
settle_case branch_id branch_stage_id case_index (err e) slot =
    fail_case notify_stage_failure branch_id branch_stage_id case_index
      (normalize_stage_error branch_stage_id e) slot

unfoldable pub settle_fan_in_stage :
    {A : Type 0}
    → (branch_id branch_stage_id : StageId) → ℕ
    → Outcome A
    → FanInCaseResult A
    → Run (FanInCaseResult A)
settle_fan_in_stage branch_id branch_stage_id case_index (returned r) slot =
    settle_case branch_id branch_stage_id case_index (to_result r) slot
settle_fan_in_stage branch_id branch_stage_id case_index (thrown what) slot =
    fail_case notify_stage_exception branch_id branch_stage_id case_index
      (exception_error branch_stage_id what) slot
settle_fan_in_stage branch_id branch_stage_id case_index thrown_unknown slot =
    fail_case notify_stage_exception branch_id branch_stage_id case_index
      (unknown_exception_error branch_stage_id) slot
