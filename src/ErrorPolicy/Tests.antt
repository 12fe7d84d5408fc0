-- ===== src/ErrorPolicy/Tests.antt =====
-- Wrapped runs of small pipelines, and the theorems at them.
use pipeline_c.Prelude.{ℕ, ◌≡◌, refl, some, List, [], ◌∷◌, ◌++◌, codes, text_eq, decimal}
use pipeline_c.Error.{exception, category_name, has_stage, has_message}
use pipeline_c.Error.Describe.{Contains}
use pipeline_c.Result.{err, to_result}
use pipeline_c.Observer.{send, pure, notify, ◌>>=◌}
use pipeline_c.Stage.{
  Node, stage, atom, construct_stages_per_run, stage_id_for, node_key, node_name,
  stage_id_for_fallback,
}
use pipeline_c.Sequential.Calls.{
  annotate_stage_error, observer_error_for, exception_error, notify_stage_exception, invoke,
  conclude, settle,
}
use pipeline_c.Sequential.Engine.{
  SequentialEngine, invoke_stage, continue_run, try_run_after_result, try_run,
}
use pipeline_c.Sequential.Attribution.{Reported}
use pipeline_c.Sample.{double}
use pipeline_c.Sample
use pipeline_c.ErrorPolicy.{
  PipelineException, dash, stage_tag, format_message, pipeline_exception, threw, terminated,
  throwing, terminating, propagating, is_exception, end_run, run,
}
use pipeline_c.ErrorPolicy.Endings.{run-threw}

-- Opens what a run of a plain stage computes with.
opened : Unit {0}
unfolding has_stage has_message to_result send pure notify ◌>>=◌ stage_id_for node_key node_name
    stage_id_for_fallback text_eq decimal annotate_stage_error observer_error_for exception_error
    notify_stage_exception invoke conclude settle invoke_stage continue_run try_run_after_result
    try_run category_name stage_tag format_message pipeline_exception is_exception end_run run
opened = tt

abbrev engine : List (Node ℕ ℕ) → SequentialEngine ℕ ℕ
engine nodes = record { policy = construct_stages_per_run; stages = nodes; observer = some [] }

abbrev boom : PipelineException
boom = record {
  what = codes "pb::pipeline_exception: [throwing] exception" ++ (dash ++ codes "boom");
  diagnostic = record {
    stage = record { key = codes "throwing"; name = codes "throwing" };
    category = exception;
    message = codes "boom";
  };
}

abbrev failing : SequentialEngine ℕ ℕ
failing = engine (stage double ∷ stage Sample.throwing ∷ [])

failing_throws : (run throwing failing (atom 3)).0 ≡ threw boom
unfolding opened
failing_throws = refl

failing_propagates : (run propagating failing (atom 3)).0 ≡ threw boom
unfolding opened
failing_propagates = refl

failing_terminates : (run terminating failing (atom 3)).0 ≡ terminated
unfolding opened
failing_terminates = refl

run-threw_example :
    ((try_run failing (atom 3)).0 ≡ err boom.diagnostic)
    × Reported boom.diagnostic (run throwing failing (atom 3)).1.observer
    × Contains boom.what (category_name boom.diagnostic.category)
    × Contains boom.what boom.diagnostic.message
unfolding opened
run-threw_example = run-threw throwing failing (atom 3) boom (refl, (refl, tt)) refl
