-- ===== src/Sequential/RunTests.antt =====
-- Runs of the engine's `run` (include/pb/runtime/sequential.hpp) on concrete values.
use pipeline_c.Prelude.{ℕ, ◌≡◌, refl, true, false, some, none, List, [], ◌∷◌, codes, map, text_eq}
use pipeline_c.Error.{Error, StageId, has_stage}
use pipeline_c.Result.{to_result}
use pipeline_c.Observer.{
  on_stage_start, on_stage_success, on_stage_exception, Sink, send, pure, notify, ◌>>=◌,
}
use pipeline_c.Stage.{
  atom, Callable, Node, stage, construct_stages_per_run, stage_id_for, stage_id_for_fallback,
  node_key, node_name,
}
use pipeline_c.Sample.{double, throwing}
use pipeline_c.Sequential.Calls.{
  annotate_stage_error, observer_error_for, exception_error, notify_stage_exception, invoke,
}
use pipeline_c.Sequential.Engine.{SequentialEngine, invoke_stage, try_run}
use pipeline_c.Sequential.TypedRun.{
  TargetError, error_or_throw, catch_run, proceed, after_call, run_after_result, run,
}
use pipeline_c.Sequential.NativeRuns.{library, as_result, run-eq-try_run}
use pipeline_c.Sequential.Unwinding.{exception_of, run_after_result-blames_first}
use pipeline_c.Sequential.EngineRuns.{ResultAgrees, PlainAgrees, run-ResultAgrees, run-PlainAgrees}

-- An error type that cannot be made of the library's error.
abbrev foreign : TargetError
foreign = record { convert = λ e. e; from_error = none }

abbrev callables : List (Callable ℕ ℕ ℕ)
callables = double ∷ throwing ∷ []

abbrev first_node : Node ℕ ℕ
first_node = stage double

abbrev engine : SequentialEngine ℕ ℕ
engine = record {
  policy = construct_stages_per_run;
  stages = map stage callables;
  observer = some [];
}

abbrev double_id : StageId
double_id = record { key = codes "double"; name = codes "double" }

abbrev throwing_id : StageId
throwing_id = record { key = codes "throwing"; name = codes "throwing" }

abbrev boom : StageId → Error
boom id = exception_error id (codes "boom")

-- The second stage throws, and the observer is told of an exception of the first stage as well, behind
-- that stage's success.
unwinding_events :
    (run_after_result foreign construct_stages_per_run 0 (map stage callables) (atom 3) (some [])).1
    ≡ some (
        on_stage_start double_id
        ∷ on_stage_success double_id
        ∷ on_stage_start throwing_id
        ∷ on_stage_exception throwing_id (boom throwing_id)
        ∷ on_stage_exception double_id (boom double_id)
        ∷ [])
unfolding run_after_result after_call proceed catch_run error_or_throw invoke_stage invoke to_result
    send pure notify ◌>>=◌ stage_id_for stage_id_for_fallback node_key node_name text_eq has_stage
    annotate_stage_error observer_error_for notify_stage_exception exception_error
unwinding_events = refl

blamed :
    exception_of
      (stage_id_for first_node 0)
      (run_after_result foreign construct_stages_per_run 0
        (map stage callables)
        (atom 3)
        (some [])).0.0
    ≡ some (boom double_id)
unfolding run_after_result after_call proceed catch_run error_or_throw invoke_stage invoke to_result
    send pure notify ◌>>=◌ stage_id_for stage_id_for_fallback node_key node_name text_eq
    exception_error
blamed = refl

run_after_result-blames_first_example :
    (before : Sink) × ((run_after_result foreign construct_stages_per_run 0
        (map stage callables)
        (atom 3)
        (some [])).1
      ≡ send (on_stage_exception (stage_id_for first_node 0) (boom double_id)) before)
run_after_result-blames_first_example =
    run_after_result-blames_first foreign construct_stages_per_run 0 first_node
      (stage throwing ∷ []) (atom 3) (some []) (boom double_id) refl blamed

run-ResultAgrees_example : ResultAgrees (run true foreign engine (atom 3)) (try_run engine (atom 3))
run-ResultAgrees_example = run-ResultAgrees foreign engine (atom 3)

run-PlainAgrees_example : PlainAgrees (run false foreign engine (atom 3)) (try_run engine (atom 3))
run-PlainAgrees_example =
    run-PlainAgrees foreign engine (atom 3) callables refl
      ((λ s input. (_, refl)), ((λ s input. tt), tt))

run-eq-try_run_example :
    run true library engine (atom 3)
    ≡ (as_result (try_run engine (atom 3)).0, (try_run engine (atom 3)).1)
run-eq-try_run_example = run-eq-try_run engine (atom 3) ((λ s input. tt), ((λ s input. tt), tt))
