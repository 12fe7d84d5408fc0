-- ===== src/Sequential/EngineRuns.antt =====
-- The engine's `run` beside its `try_run` (include/pb/runtime/sequential.hpp).
use pipeline_c.Prelude.{◌≡◌, ap, ap₂, some, true, false, subst, sym, List, All, map}
use pipeline_c.Error.{Error}
use pipeline_c.Result.{Result, ok, err, plain, own_result}
use pipeline_c.Observer.{Sink}
use pipeline_c.Stage.{Value, Outcome, returned, Callable, Node, stage}
use pipeline_c.Sequential.Engine.{SequentialEngine, try_run_after_result, try_run}
use pipeline_c.Sequential.TypedRun.{TargetError, Ran, run_after_result, run_stages, run}
use pipeline_c.Sequential.RunAgrees.{Failed, Agrees, run_after_result-Agrees}
use pipeline_c.Sequential.Unwinding.{exception_of}
use pipeline_c.Sequential.PlainRuns.{IsPlain, SameRun, run_stages-SameRun}

module _ {S A : Type 0} where
  -- A run of an engine with typed results beside a `try_run`.
  abbrev pub ResultAgrees :
      Outcome (Value A) × SequentialEngine S A
      → Result (Value A) Error × SequentialEngine S A
      → Type 0
  ResultAgrees ran (ok v, engine) = ran ≡ (returned (own_result (ok v)), engine)
  ResultAgrees ran (err e, engine) = Failed ran.0 × (ran.1.stages ≡ engine.stages)

  -- A run of an engine with plain values beside a `try_run`.
  abbrev pub PlainAgrees :
      Outcome (Value A) × SequentialEngine S A
      → Result (Value A) Error × SequentialEngine S A
      → Type 0
  PlainAgrees ran (ok v, engine) = ran ≡ (returned (plain v), engine)
  PlainAgrees ran (err e, engine) = (exception_of e.stage ran.0 ≡ some e) × (ran.1 ≡ engine)

  module _ (engine : SequentialEngine S A) where
    left : {B : Type 0} → (B × List (Node S A)) × Sink → B × SequentialEngine S A
    left x = (x.0.0, record engine { stages = x.0.1; observer = x.1 })

    left-ResultAgrees :
        (x : Ran S A × Sink) (y : (Result (Value A) Error × List (Node S A)) × Sink)
        → Agrees x y
        → ResultAgrees (left x) (left y)
    unfolding left
    left-ResultAgrees x ((ok v, stages), s) h = ap left h
    left-ResultAgrees x ((err e, stages), s) h = h

    left-PlainAgrees :
        (x : Ran S A × Sink) (y : (Result (Value A) Error × List (Node S A)) × Sink)
        → SameRun x y
        → PlainAgrees (left x) (left y)
    unfolding left
    left-PlainAgrees x ((ok v, stages), s) h = ap left h
    left-PlainAgrees x ((err e, stages), s) (thrown_e, same, events) =
        (thrown_e, ap₂ (λ ns t. record engine { stages = ns; observer = t }) same events)

  -- Whatever error type a run returns, it returns a value exactly if `try_run` does, the same one, and
  -- then both have sent the observer the same events and leave the same engine; if `try_run` fails,
  -- the stages that the engine keeps are still the same.
  pub run-ResultAgrees :
      (target : TargetError) (engine : SequentialEngine S A) (input : Value A)
      → ResultAgrees (run true target engine input) (try_run engine input)
  unfolding run try_run left
  run-ResultAgrees target engine input =
      left-ResultAgrees engine
        (run_after_result target engine.policy 0 engine.stages input engine.observer)
        (try_run_after_result engine.policy 0 engine.stages input engine.observer)
        (run_after_result-Agrees target engine.policy 0 engine.stages input engine.observer)

  -- If the stages return plain values or throw, then `run` and `try_run` send the observer the same
  -- events and leave the same engine, `run` returns a value exactly if `try_run` does, the same one,
  -- and where `try_run` reports an error, `run` throws the exception that the error is made of.
  pub run-PlainAgrees :
      (target : TargetError) (engine : SequentialEngine S A) (input : Value A)
      (stages : List (Callable S A A))
      → engine.stages ≡ map stage stages
      → All IsPlain stages
      → PlainAgrees (run false target engine input) (try_run engine input)
  unfolding run try_run left
  run-PlainAgrees target engine input stages e h =
      left-PlainAgrees engine
        (run_stages target engine.policy 0 engine.stages input engine.observer)
        (try_run_after_result engine.policy 0 engine.stages input engine.observer)
        (subst
          (λ nodes.
            SameRun (run_stages target engine.policy 0 nodes input engine.observer)
              (try_run_after_result engine.policy 0 nodes input engine.observer))
          (sym e) (run_stages-SameRun target engine.policy 0 stages input engine.observer h))
