-- ===== src/Sequential/NativeRuns.antt =====
-- `run` with the library's error type is `try_run` (include/pb/runtime/sequential.hpp).
use pipeline_c.Prelude.{ℕ, suc, ◌≡◌, refl, sym, ◌∙◌, ap, subst, true, some, List, [], ◌∷◌, All}
use pipeline_c.Error.{StageId, Error}
use pipeline_c.Result.{
  Result, ok, err, UserError, native, plain, own_result, expected_like, normalize_expected_error,
  to_result,
}
use pipeline_c.Observer.{on_stage_start, Sink, Run, pure, notify, send, ◌>>=◌}
use pipeline_c.Stage.{
  Value, Outcome, returned, thrown, thrown_unknown, Callable, Node, stage, type_list_join,
  selected_branch, fan_in_branch, StageStoragePolicy, construct_stages_per_run,
  store_stages_in_engine, stage_id_for,
}
use pipeline_c.Sequential.Calls.{
  normalize_stage_error, notify_stage_failure, invoke, conclude, settle,
}
use pipeline_c.Sequential.Engine.{
  as_value, as_outcome, visit, invoke_stage, continue_run, try_run_after_result, SequentialEngine,
  try_run,
}
use pipeline_c.Sequential.TypedRun.{
  TargetError, annotate_user_error, notify_user_failure, Ran, error_or_throw, catch_run, proceed,
  after_call, run_after_result, run,
}

-- The library's error as the error type of a run; its only source is itself.
abbrev pub library : TargetError
library = record { convert = λ e. e; from_error = some native }

-- An error, where there is one, is the library's.
abbrev pub NativeResult : {B : Type 0} → Result B UserError → Type 0
NativeResult (ok b) = Unit
NativeResult (err e) = (value : Error) × (e ≡ native value)

abbrev pub NativeOutcome : {B : Type 0} → Outcome B → Type 0
NativeOutcome (returned (plain b)) = Unit
NativeOutcome (returned (own_result r)) = NativeResult r
NativeOutcome (returned (expected_like r)) = Unit
NativeOutcome (thrown what) = Unit
NativeOutcome thrown_unknown = Unit

abbrev pub IsNative : {S A : Type 0} → Node S A → Type 0
IsNative {S} {A} (stage c) = (s : S) (input : Value A) → NativeOutcome (c.call s input).0
IsNative {S} {A} (type_list_join c) = (s : S) (input : Value A) → NativeOutcome (c.call s input).0
IsNative (selected_branch b) = Unit
IsNative (fan_in_branch b) = Unit

abbrev pub as_result : {B : Type 0} → Result B Error → Outcome B
as_result (ok b) = returned (own_result (ok b))
as_result (err e) = returned (own_result (err (native e)))

as_value-Native : {A : Type 0} (o : Outcome A) → NativeOutcome o → NativeOutcome (as_value o)
as_value-Native (returned (plain a)) h = tt
as_value-Native (returned (own_result (ok a))) h = tt
as_value-Native (returned (own_result (err e))) h = h
as_value-Native (returned (expected_like r)) h = tt
as_value-Native (thrown what) h = tt
as_value-Native thrown_unknown h = tt

as_outcome-Native : {A : Type 0} (r : Result A Error) → NativeOutcome (as_outcome r)
as_outcome-Native (ok a) = tt
as_outcome-Native (err e) = (e, refl)

module _ {S A : Type 0} where
  invoke-Native :
      (policy : StageStoragePolicy) (c : Callable S A A) (input : Value A)
      → ((s : S) (v : Value A) → NativeOutcome (c.call s v).0)
      → NativeOutcome (invoke policy c input).0
  unfolding invoke
  invoke-Native construct_stages_per_run c input h = h c.initial input
  invoke-Native store_stages_in_engine c input h = h c.object input

  invoke_stage-Native :
      (policy : StageStoragePolicy) (id : StageId) (node : Node S A) (input : Value A) (s : Sink)
      → IsNative node
      → NativeOutcome (invoke_stage policy id node input s).0.0
  unfolding invoke_stage ◌>>=◌ pure
  invoke_stage-Native policy id (stage c) input s h =
      as_value-Native _ (invoke-Native policy c input h)
  invoke_stage-Native policy id (type_list_join c) input s h =
      as_value-Native _ (invoke-Native policy c (visit input) h)
  invoke_stage-Native construct_stages_per_run id (selected_branch b) input s h =
      as_outcome-Native _
  invoke_stage-Native store_stages_in_engine id (selected_branch b) input s h = as_outcome-Native _
  invoke_stage-Native policy id (fan_in_branch b) input s h = as_outcome-Native _

  -- What a run with the library's error type has to come to.
  abbrev as_run : (Result (Value A) Error × List (Node S A)) × Sink → Ran S A × Sink
  as_run y = ((as_result y.0.0, y.0.1), y.1)

  catch_run-as_result :
      (id : StageId) (r : Result (Value A) Error) (stages : List (Node S A)) (s : Sink)
      → catch_run library id (as_result r, stages) s ≡ ((as_result r, stages), s)
  unfolding catch_run pure
  catch_run-as_result id (ok v) stages s = refl
  catch_run-as_result id (err e) stages s = refl

  module _ (id : StageId) (node : Node S A) (rest : List (Node S A))
      (next : Value A → Run (Ran S A))
      (try_next : Value A → Run (Result (Value A) Error × List (Node S A)))
      (same : (v : Value A) (s : Sink) → next v s ≡ as_run (try_next v s)) where
    proceed-Native :
        (r : Result (Value A) UserError) (s : Sink)
        → NativeResult r
        → (proceed library id node rest next r >>= catch_run library id) s
          ≡ as_run ((conclude id r >>= continue_run node rest try_next) s)
    unfolding proceed conclude continue_run notify_user_failure notify_stage_failure
        normalize_stage_error annotate_user_error normalize_expected_error catch_run ◌>>=◌ pure
    proceed-Native (ok v) s h =
        ap (λ x. catch_run library id (x.0.0, node ∷ x.0.1) x.1) (same v _)
        ∙ catch_run-as_result id _ _ _
    proceed-Native (err e) s (value, is_native) =
        subst
          (λ e'.
            (proceed library id node rest next (err e') >>= catch_run library id) s
            ≡ as_run ((conclude id (err e') >>= continue_run node rest try_next) s))
          (sym is_native) refl

    after_call-Native :
        (o : Outcome (Value A)) (s : Sink)
        → NativeOutcome o
        → (after_call library id node rest next o >>= catch_run library id) s
          ≡ as_run ((settle id o >>= continue_run node rest try_next) s)
    unfolding after_call settle to_result error_or_throw catch_run continue_run ◌>>=◌ pure
    after_call-Native (returned (plain v)) s h = proceed-Native (ok v) s tt
    after_call-Native (returned (own_result r)) s h = proceed-Native r s h
    after_call-Native (returned (expected_like (ok v))) s h = proceed-Native (ok v) s tt
    after_call-Native (returned (expected_like (err e))) s h = proceed-Native _ s (_, refl)
    after_call-Native (thrown what) s h = refl
    after_call-Native thrown_unknown s h = refl

  run_after_result-eq :
      (policy : StageStoragePolicy) (i : ℕ) (stages : List (Node S A)) (input : Value A) (s : Sink)
      → All IsNative stages
      → run_after_result library policy i stages input s
        ≡ as_run (try_run_after_result policy i stages input s)
  unfolding run_after_result try_run_after_result notify ◌>>=◌ pure
  run_after_result-eq policy i [] input s h = refl
  run_after_result-eq policy i (node ∷ rest) input s (h, hs) =
      let id = stage_id_for node i in
      let call = invoke_stage policy id node input (send (on_stage_start id) s) in
      after_call-Native id call.0.1 rest (run_after_result library policy (suc i) rest)
        (try_run_after_result policy (suc i) rest)
        (λ v t. run_after_result-eq policy (suc i) rest v t hs) call.0.0 call.1
        (invoke_stage-Native policy id node input (send (on_stage_start id) s) h)

  -- If every error that the stages report is the library's, and so is the error type of the run, then
  -- `run` is `try_run`: they have the same result, the same error where it is one, send the observer
  -- the same events and leave the same engine, and no exception leaves the run.
  pub run-eq-try_run :
      (engine : SequentialEngine S A) (input : Value A)
      → All IsNative engine.stages
      → run true library engine input
        ≡ (as_result (try_run engine input).0, (try_run engine input).1)
  unfolding run try_run
  run-eq-try_run engine input h =
      ap (λ x. (x.0.0, record engine { stages = x.0.1; observer = x.1 }))
        (run_after_result-eq engine.policy 0 engine.stages input engine.observer h)
