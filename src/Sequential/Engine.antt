-- ===== src/Sequential/Engine.antt =====
-- The sequential engine of include/pb/runtime/sequential.hpp: stages in order, up to the first
-- that fails.
use pipeline_c.Prelude.{ℕ, suc, List, [], ◌∷◌}
use pipeline_c.Error.{StageId, Error}
use pipeline_c.Result.{Result, ok, err, native, plain, own_result, expected_like}
use pipeline_c.Observer.{Sink, Run, pure, ◌>>=◌, ◌>>◌}
use pipeline_c.Stage.{
  Value, atom, variant, Outcome, returned, thrown, thrown_unknown, Node, stage, type_list_join,
  selected_branch, fan_in_branch, StageStoragePolicy, construct_stages_per_run,
  store_stages_in_engine, stage_id_for,
}
use pipeline_c.Sequential.Calls.{notify_stage_start, invoke, settle}
use pipeline_c.Sequential.Branch.{run_selected_branch, run_stored_branch}
use pipeline_c.Sequential.FanIn.{run_fan_in_branch}

abbrev map_result : {A B E : Type 0} → (A → B) → Result A E → Result B E
map_result f (ok a) = ok (f a)
map_result f (err e) = err e

-- A stage's output as the input of the next one.
abbrev pub as_value : {A : Type 0} → Outcome A → Outcome (Value A)
as_value (returned (plain a)) = returned (plain (atom a))
as_value (returned (own_result r)) = returned (own_result (map_result atom r))
as_value (returned (expected_like r)) = returned (expected_like (map_result atom r))
as_value (thrown what) = thrown what
as_value thrown_unknown = thrown_unknown

-- The result of a branch node is a `result` with the library's error.
abbrev pub as_outcome : {A : Type 0} → Result A Error → Outcome A
as_outcome (ok a) = returned (own_result (ok a))
as_outcome (err e) = returned (own_result (err (native e)))

-- `invoke_type_list_join_stage` hands a stage the alternative that a variant holds.
abbrev pub visit : {A : Type 0} → Value A → Value A
visit (variant case_index a) = atom a
visit input = input

module _ {S A : Type 0} where
  -- `invoke_stage`
  unfoldable pub invoke_stage :
      StageStoragePolicy → StageId → Node S A → Value A → Run (Outcome (Value A) × Node S A)
  invoke_stage policy id (stage c) input = do
    let (o, c') = invoke policy c input
    pure (as_value o, stage c')
  invoke_stage policy id (type_list_join c) input = do
    let (o, c') = invoke policy c (visit input)
    pure (as_value o, type_list_join c')
  invoke_stage construct_stages_per_run id (selected_branch b) input = do
    r ← run_selected_branch id b input
    pure (as_outcome r, selected_branch b)
  invoke_stage store_stages_in_engine id (selected_branch b) input = do
    (r, b') ← run_stored_branch id b input
    pure (as_outcome r, selected_branch b')
  invoke_stage policy id (fan_in_branch b) input = do
    (r, b') ← run_fan_in_branch policy id b input
    pure (as_outcome r, fan_in_branch b')

  -- the end of `try_run_after_result`: a stage that failed ends the run
  unfoldable pub continue_run :
      (node : Node S A) (rest : List (Node S A))
      → (next : Value A → Run (Result (Value A) Error × List (Node S A))) → Result (Value A) Error
      → Run (Result (Value A) Error × List (Node S A))
  continue_run node rest next (err e) = pure (err e, node ∷ rest)
  continue_run node rest next (ok output) = do (r, rest') ← next output; pure (r, node ∷ rest')

  -- `try_run_after_result`, with the stages as they are left; behind the last stage it returns the
  -- value that the first clause returns.
  unfoldable pub try_run_after_result :
      StageStoragePolicy
      → (stage_index : ℕ) → List (Node S A)
      → Value A
      → Run (Result (Value A) Error × List (Node S A))
  try_run_after_result policy stage_index [] input = pure (ok input, [])
  try_run_after_result policy stage_index (node ∷ rest) input =
      let next = try_run_after_result policy (suc stage_index) rest in
      do
        notify_stage_start (stage_id_for node stage_index)
        (o, node') ← invoke_stage policy (stage_id_for node stage_index) node input
        r ← settle (stage_id_for node stage_index) o
        continue_run node' rest next r

-- `sequential_engine`, with what its observer has been sent
pub record SequentialEngine (S A : Type 0) : Type 0 where
  pub policy : StageStoragePolicy
  pub stages : List (Node S A)
  pub observer : Sink

module _ {S A : Type 0} where
  unfoldable pub try_run :
      SequentialEngine S A → Value A → Result (Value A) Error × SequentialEngine S A
  try_run engine input =
      let (run, sink) = try_run_after_result engine.policy 0 engine.stages input engine.observer in
      let (r, stages) = run in (r, record engine { stages = stages; observer = sink })

  -- `try_run_range` and `try_run_each`: the results in the order of the inputs
  unfoldable pub try_run_range :
      SequentialEngine S A → List (Value A) → List (Result (Value A) Error) × SequentialEngine S A
  try_run_range engine [] = ([], engine)
  try_run_range engine (input ∷ inputs) =
      let (r, engine') = try_run engine input in
      let (rs, last) = try_run_range engine' inputs in (r ∷ rs, last)
