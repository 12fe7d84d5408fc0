-- ===== src/Verbose/Transparent.antt =====
-- The verbose engine of include/pb/runtime/error_policy.hpp changes nothing but the observer.
use pipeline_c.Prelude.{◌≡◌, refl, ap, Bool, some, List, []}
use pipeline_c.Observer.{Event}
use pipeline_c.Stage.{Value}
use pipeline_c.Sequential.Engine.{SequentialEngine, try_run}
use pipeline_c.Sequential.Balanced.{track}
use pipeline_c.Sequential.Balanced.Runs.{try_run-IsBalanced, try_run-observer}
use pipeline_c.Verbose.{with_verbose_diagnostics, close, verbose_try_run, log, written, log_of}

module _ {S A : Type 0} (engine : SequentialEngine S A) (input : Value A) (has_sink : Bool) where
  -- A run of an engine inside a verbose one has the result of the engine's own run, and when the
  -- verbose engine is destroyed, the engine has the observer that it had before, with the events that
  -- it had been sent before, and the stages that its own run would have left.
  pub verbose_try_run-transparent :
      let run = verbose_try_run (with_verbose_diagnostics engine has_sink) input in
      (run.0 ≡ (try_run engine input).0)
      × ((close run.1).stages ≡ (try_run engine input).1.stages)
      × ((close run.1).observer ≡ engine.observer)
  unfolding verbose_try_run with_verbose_diagnostics close
  verbose_try_run-transparent =
      let (same, stages) = try_run-observer engine input (some []) in (same, stages, refl)

  -- The stream of a verbose engine holds the lines of the events of one run, in their order, and the
  -- starts and ends of stages among these events are balanced.
  pub log_of-verbose_try_run :
      (events : List Event) × (log_of
          (verbose_try_run (with_verbose_diagnostics engine has_sink) input).1
        ≡ log has_sink events)
      × (track events [] ≡ some [])
  unfolding verbose_try_run with_verbose_diagnostics log_of
  log_of-verbose_try_run =
      let fresh : SequentialEngine S A = record engine { observer = some [] } in
      let (events, sent, balanced) = try_run-IsBalanced fresh input in
      (events, ap (written has_sink) sent, balanced)
