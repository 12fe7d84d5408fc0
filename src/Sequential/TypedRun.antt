-- ===== src/Sequential/TypedRun.antt =====
-- `run` of the engine of include/pb/runtime/sequential.hpp, which keeps the error type of the stages:
-- `run_stages` for pipelines whose stages return values, `run_after_result` for the others.
use pipeline_c.Prelude.{ℕ, suc, Bool, Option, none, some, List, [], ◌∷◌, if◌then◌else◌}
use pipeline_c.Error.{StageId, Error, stage_failure}
use pipeline_c.Result.{
  Result, ok, err, UserError, native, string, c_string, carrying, streamable, opaque, plain,
  own_result, expected_like, to_result,
}
use pipeline_c.Observer.{on_stage_failure, Run, pure, notify, ◌>>=◌, ◌>>◌}
use pipeline_c.Stage.{
  Value, Outcome, returned, thrown, thrown_unknown, Node, StageStoragePolicy, stage_id_for,
}
use pipeline_c.Sequential.Calls.{
  notify_stage_start, notify_stage_success, annotate_stage_error, observer_error_for,
  exception_error, unknown_exception_error, notify_stage_exception,
}
use pipeline_c.Sequential.Engine.{invoke_stage, SequentialEngine}

-- The error type `E` of a `result<T, E>` that a run returns: its constructors from the errors of the
-- stages, which are the types' own, and that from the library's error, if it has one.
pub record TargetError : Type 0 where
  pub convert : UserError → UserError
  pub from_error : Option (Error → UserError)

-- `annotate_stage_error` of any error
unfoldable pub annotate_user_error : StageId → UserError → UserError
annotate_user_error id (native value) = native (annotate_stage_error id value)
annotate_user_error id (string message) = string message
annotate_user_error id (c_string message) = c_string message
annotate_user_error id (carrying diagnostic) = carrying (annotate_stage_error id diagnostic)
annotate_user_error id (streamable written) = streamable written
annotate_user_error id opaque = opaque

-- `notify_stage_failure` of any error
unfoldable pub notify_user_failure : StageId → UserError → Run Unit
notify_user_failure id value =
    notify (on_stage_failure id (observer_error_for id value stage_failure))

-- What a run comes to, with the stages as they are left: it returns a value or a `result`, or an
-- exception leaves it.
abbrev pub Ran : (S A : Type 0) → Type 0
Ran S A = Outcome (Value A) × List (Node S A)

-- `if constexpr (std::constructible_from<Error, error>)`, and else `throw;`
unfoldable pub error_or_throw :
    {B : Type 0} → Option (Error → UserError) → Error → (rethrown : Outcome B) → Outcome B
error_or_throw none stage_error rethrown = rethrown
error_or_throw (some construct) stage_error rethrown =
    returned (own_result (err (construct stage_error)))

module _ {S A : Type 0} where
  -- the `catch` blocks of `run_after_result`
  unfoldable pub catch_run : TargetError → StageId → Ran S A → Run (Ran S A)
  catch_run target id (returned r, stages) = pure (returned r, stages)
  catch_run target id (thrown what, stages) =
      let stage_error = exception_error id what in
      do
        notify_stage_exception id stage_error
        pure (error_or_throw target.from_error stage_error (thrown what), stages)
  catch_run target id (thrown_unknown, stages) =
      let stage_error = unknown_exception_error id in
      do
        notify_stage_exception id stage_error
        pure (error_or_throw target.from_error stage_error thrown_unknown, stages)

  -- The `try` block of `run_after_result` behind the call of the stage: `next` is the run over the
  -- other stages, within the block.
  unfoldable pub proceed :
      TargetError
      → StageId
      → (node : Node S A) (rest : List (Node S A)) → (next : Value A → Run (Ran S A))
      → Result (Value A) UserError
      → Run (Ran S A)
  proceed target id node rest next (err e) =
      let normalized_error = target.convert (annotate_user_error id e) in
      do
        notify_user_failure id normalized_error
        pure (returned (own_result (err normalized_error)), node ∷ rest)
  proceed target id node rest next (ok v) = do
    notify_stage_success id
    (o, rest') ← next v
    pure (o, node ∷ rest')

  unfoldable pub after_call :
      TargetError
      → StageId
      → (node : Node S A) (rest : List (Node S A)) → (next : Value A → Run (Ran S A))
      → Outcome (Value A)
      → Run (Ran S A)
  after_call target id node rest next (returned r) = proceed target id node rest next (to_result r)
  after_call target id node rest next (thrown what) = pure (thrown what, node ∷ rest)
  after_call target id node rest next thrown_unknown = pure (thrown_unknown, node ∷ rest)

  unfoldable pub run_after_result :
      TargetError
      → StageStoragePolicy
      → (stage_index : ℕ) → List (Node S A)
      → Value A
      → Run (Ran S A)
  run_after_result target policy stage_index [] input = pure (returned (own_result (ok input)), [])
  run_after_result target policy stage_index (node ∷ rest) input =
      let id = stage_id_for node stage_index in
      let next = run_after_result target policy (suc stage_index) rest in
      do
        notify_stage_start id
        (o, node') ← invoke_stage policy id node input
        ran ← after_call target id node' rest next o
        catch_run target id ran

  -- `run_stages` behind the call of a stage: a stage that returns a `result` or another expected-like
  -- object is followed by `run_after_result`.
  unfoldable pub proceed_result :
      StageId
      → (node : Node S A) (rest : List (Node S A)) → (next : Value A → Run (Ran S A))
      → Result (Value A) UserError
      → Run (Ran S A)
  proceed_result id node rest next (err e) =
      let stage_error = annotate_user_error id e in
      do
        notify_user_failure id stage_error
        pure (returned (own_result (err stage_error)), node ∷ rest)
  proceed_result id node rest next (ok v) = do
    notify_stage_success id
    (o, rest') ← next v
    pure (o, node ∷ rest')

  unfoldable pub continue_stages :
      StageId
      → (node : Node S A) (rest : List (Node S A)) → (next next_result : Value A → Run (Ran S A))
      → Outcome (Value A)
      → Run (Ran S A)
  continue_stages id node rest next next_result (thrown what) = do
    notify_stage_exception id (exception_error id what)
    pure (thrown what, node ∷ rest)
  continue_stages id node rest next next_result thrown_unknown = do
    notify_stage_exception id (unknown_exception_error id)
    pure (thrown_unknown, node ∷ rest)
  continue_stages id node rest next next_result (returned (plain v)) = do
    notify_stage_success id
    (o, rest') ← next v
    pure (o, node ∷ rest')
  continue_stages id node rest next next_result (returned (own_result r)) =
      proceed_result id node rest next_result (to_result (own_result r))
  continue_stages id node rest next next_result (returned (expected_like r)) =
      proceed_result id node rest next_result (to_result (expected_like r))

  -- Behind the last stage it returns the value that the first clause returns.
  unfoldable pub run_stages :
      TargetError
      → StageStoragePolicy
      → (stage_index : ℕ) → List (Node S A)
      → Value A
      → Run (Ran S A)
  run_stages target policy stage_index [] input = pure (returned (plain input), [])
  run_stages target policy stage_index (node ∷ rest) input =
      let id = stage_id_for node stage_index in
      let next = run_stages target policy (suc stage_index) rest in
      do
        notify_stage_start id
        (o, node') ← invoke_stage policy id node input
        continue_stages id node' rest next (run_after_result target policy (suc stage_index) rest) o

  -- `run`: `returns_result` is whether `run_stages` has the type of a `result`, and then its error
  -- type is the target. Without stages there is none, and the input is returned.
  unfoldable pub run :
      (returns_result : Bool)
      → TargetError
      → SequentialEngine S A
      → Value A
      → Outcome (Value A) × SequentialEngine S A
  run returns_result target engine input =
      let (ran, sink) =
        (if returns_result
            then run_after_result target engine.policy 0 engine.stages input
            else run_stages target engine.policy 0 engine.stages input)
          engine.observer in
      (ran.0, record engine { stages = ran.1; observer = sink })
