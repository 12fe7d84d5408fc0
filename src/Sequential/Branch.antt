-- ===== src/Sequential/Branch.antt =====
-- Branch nodes in include/pb/runtime/sequential.hpp: the first case whose predicate holds runs. The
-- engine has one routine for stages that are constructed for each run, a loop with flags, and
-- another for stages that it stores, a recursion over the cases.
use pipeline_c.Prelude.{ℕ, suc, Bool, true, false, ◌||◌, List, [], ◌∷◌, codes, if◌then◌else◌}
use pipeline_c.Error.{contract_violation, StageId, Error}
use pipeline_c.Result.{Result, ok, err}
use pipeline_c.Observer.{on_case_selected, on_case_skipped, Run, pure, notify, ◌>>=◌, ◌>>◌}
use pipeline_c.Stage.{
  Value, atom, variant, Callable, Case, BranchNode, StageStoragePolicy, construct_stages_per_run,
  store_stages_in_engine, branch_child_stage_id,
}
use pipeline_c.Sequential.Calls.{notify_stage_start, invoke, settle, mark_branch_error}

-- What `run_selected_branch` keeps between two cases.
pub record Progress (A : Type 0) : Type 0 where
  pub matched : Bool
  pub has_error : Bool
  pub output : Result (Value A) Error

unfoldable pub selected_branch_success : {A : Type 0} → (homogeneous : Bool) → ℕ → A → Value A
selected_branch_success true case_index a = atom a
selected_branch_success false case_index a = variant case_index a

abbrev pub wrap_success :
    {A : Type 0} → (homogeneous : Bool) → ℕ → Result A Error → Result (Value A) Error
wrap_success homogeneous case_index (ok a) = ok (selected_branch_success homogeneous case_index a)
wrap_success homogeneous case_index (err e) = err e

unfoldable pub unselected_branch_error : {A : Type 0} → StageId → Result (Value A) Error
unselected_branch_error branch_id = err (record {
  stage = branch_id;
  category = contract_violation;
  message = codes "no branch predicate selected a case";
})

unfoldable pub start_progress : {A : Type 0} → StageId → Progress A
start_progress branch_id = record {
  matched = false;
  has_error = false;
  output = unselected_branch_error branch_id;
}

module _ {S A : Type 0} where
  -- `evaluate_branch_predicate`
  unfoldable pub evaluate_predicate :
      StageStoragePolicy
      → StageId
      → Callable S A Bool
      → Value A
      → Run (Result Bool Error × Callable S A Bool)
  evaluate_predicate policy predicate_id predicate input = do
    notify_stage_start predicate_id
    let (o, predicate') = invoke policy predicate input
    r ← settle predicate_id o
    pure (r, predicate')

  -- `run_branch_stage`, and the same steps in `run_selected_branch_cases_with_storage`
  unfoldable pub run_branch_stage :
      StageStoragePolicy
      → (homogeneous : Bool) → StageId
      → Callable S A A
      → Value A
      → (case_index : ℕ) → Run (Result (Value A) Error × Callable S A A)
  run_branch_stage policy homogeneous branch_stage_id branch_stage input case_index = do
    notify_stage_start branch_stage_id
    let (o, branch_stage') = invoke policy branch_stage input
    r ← settle branch_stage_id o
    pure (wrap_success homogeneous case_index r, branch_stage')

  -- the lambda `process` of `run_selected_branch`, once the predicate is evaluated
  unfoldable pub decide_case :
      (homogeneous : Bool) (branch_id predicate_id : StageId)
      → Value A
      → ℕ
      → Case S A
      → Progress A
      → Result Bool Error
      → Run (Progress A)
  decide_case homogeneous branch_id predicate_id input case_index c progress (err e) =
      pure (record progress { has_error = true; output = err e })
  decide_case homogeneous branch_id predicate_id input case_index c progress (ok true) = do
    notify (on_case_selected branch_id case_index predicate_id)
    (output, _) ←
        run_branch_stage construct_stages_per_run homogeneous
          (branch_child_stage_id branch_id c.stage case_index (codes "stage")) c.stage input
          case_index
    pure (record progress { matched = true; output = output })
  decide_case homogeneous branch_id predicate_id input case_index c progress (ok false) = do
    notify (on_case_skipped branch_id case_index predicate_id)
    pure progress

  -- the lambda `process` of `run_selected_branch`, behind its first line
  unfoldable pub try_case :
      (homogeneous : Bool) (branch_id : StageId)
      → Value A
      → ℕ
      → Case S A
      → Progress A
      → Run (Progress A)
  try_case homogeneous branch_id input case_index c progress =
      let predicate_id =
        branch_child_stage_id branch_id c.predicate case_index (codes "predicate") in
      do
        (r, _) ← evaluate_predicate construct_stages_per_run predicate_id c.predicate input
        decide_case homogeneous branch_id predicate_id input case_index c progress r

  unfoldable pub process :
      (homogeneous : Bool) (branch_id : StageId)
      → Value A
      → ℕ
      → Case S A
      → Progress A
      → Run (Progress A)
  process homogeneous branch_id input case_index c progress =
      if progress.matched || progress.has_error
      then pure progress
      else try_case homogeneous branch_id input case_index c progress

  -- `(process.template operator()<Is, Cases>(), ...)`
  unfoldable pub process_cases :
      (homogeneous : Bool) (branch_id : StageId)
      → Value A
      → ℕ
      → List (Case S A)
      → Progress A
      → Run (Progress A)
  process_cases homogeneous branch_id input case_index [] progress = pure progress
  process_cases homogeneous branch_id input case_index (c ∷ cases) progress = do
    progress' ← process homogeneous branch_id input case_index c progress
    process_cases homogeneous branch_id input (suc case_index) cases progress'

  -- `run_selected_branch` without storage
  unfoldable pub run_selected_branch :
      StageId → BranchNode S A → Value A → Run (Result (Value A) Error)
  run_selected_branch branch_id node input = do
    progress ←
        process_cases node.homogeneous branch_id input 0 node.cases (start_progress branch_id)
    pure (mark_branch_error (codes "branch") progress.output)

  -- `run_selected_branch_cases_with_storage` once the predicate is evaluated; `others` are the cases
  -- behind this one, and `next` is the recursive call for them
  unfoldable pub decide_stored_case :
      (homogeneous : Bool) (branch_id predicate_id : StageId)
      → Value A
      → ℕ
      → Case S A
      → (others : List (Case S A)) → (next : Run (Result (Value A) Error × List (Case S A)))
      → Result Bool Error
      → Run (Result (Value A) Error × List (Case S A))
  decide_stored_case homogeneous branch_id predicate_id input case_index c others next (err e) =
      pure (err e, c ∷ others)
  decide_stored_case homogeneous branch_id predicate_id input case_index c others next (ok true) =
      do
        notify (on_case_selected branch_id case_index predicate_id)
        (output, stage') ←
            run_branch_stage store_stages_in_engine homogeneous
              (branch_child_stage_id branch_id c.stage case_index (codes "stage")) c.stage input
              case_index
        pure (output, record c { stage = stage' } ∷ others)
  decide_stored_case homogeneous branch_id predicate_id input case_index c others next (ok false) =
      do
        notify (on_case_skipped branch_id case_index predicate_id)
        (output, others') ← next
        pure (output, c ∷ others')

  -- `run_selected_branch_cases_with_storage`; the first clause is what it does behind its last case
  unfoldable pub run_selected_branch_cases_with_storage :
      (homogeneous : Bool) (branch_id : StageId)
      → Value A
      → ℕ
      → List (Case S A)
      → Run (Result (Value A) Error × List (Case S A))
  run_selected_branch_cases_with_storage homogeneous branch_id input case_index [] =
      pure (unselected_branch_error branch_id, [])
  run_selected_branch_cases_with_storage homogeneous branch_id input case_index (c ∷ cases) =
      let predicate_id =
        branch_child_stage_id branch_id c.predicate case_index (codes "predicate") in
      let next =
        run_selected_branch_cases_with_storage homogeneous branch_id input (suc case_index) cases in
      do
        (r, predicate') ← evaluate_predicate store_stages_in_engine predicate_id c.predicate input
        decide_stored_case homogeneous branch_id predicate_id input case_index
            (record c { predicate = predicate' }) cases next r

  -- `run_selected_branch` with storage
  unfoldable pub run_stored_branch :
      StageId → BranchNode S A → Value A → Run (Result (Value A) Error × BranchNode S A)
  run_stored_branch branch_id node input = do
    (output, cases') ←
        run_selected_branch_cases_with_storage node.homogeneous branch_id input 0 node.cases
    pure (mark_branch_error (codes "branch") output, record node { cases = cases' })
