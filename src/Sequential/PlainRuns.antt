-- ===== src/Sequential/PlainRuns.antt =====
-- `run` over stages that return plain values (`run_stages` of include/pb/runtime/sequential.hpp).
use pipeline_c.Prelude.{ℕ, suc, ◌≡◌, refl, ap, some, List, [], ◌∷◌, All, map}
use pipeline_c.Error.{StageId, Error}
use pipeline_c.Result.{Result, ok, err, plain, own_result, expected_like, to_result}
use pipeline_c.Observer.{on_stage_start, Sink, Run, pure, notify, send, ◌>>=◌}
use pipeline_c.Stage.{
  Value, Outcome, returned, thrown, thrown_unknown, Callable, Node, stage, StageStoragePolicy,
  construct_stages_per_run, store_stages_in_engine, stage_id_for,
}
use pipeline_c.Sequential.Calls.{exception_error, unknown_exception_error, invoke, conclude, settle}
use pipeline_c.Sequential.Engine.{as_value, invoke_stage, continue_run, try_run_after_result}
use pipeline_c.Sequential.TypedRun.{TargetError, Ran, continue_stages, run_after_result, run_stages}
use pipeline_c.Sequential.Unwinding.{exception_of}

-- A stage whose calls return plain values or throw.
abbrev pub PlainOutcome : {B : Type 0} → Outcome B → Type 0
PlainOutcome {B} (returned r) = (b : B) × (r ≡ plain b)
PlainOutcome (thrown what) = Unit
PlainOutcome thrown_unknown = Unit

abbrev pub IsPlain : {S A : Type 0} → Callable S A A → Type 0
IsPlain {S} {A} c = (s : S) (input : Value A) → PlainOutcome (c.call s input).0

-- What `run_stages` comes to beside `try_run_after_result`: the same value, or the exception that the
-- error is made of, with the same events and stages.
abbrev pub SameRun :
    {S A : Type 0} → Ran S A × Sink → (Result (Value A) Error × List (Node S A)) × Sink → Type 0
SameRun ran ((ok v, stages), s) = ran ≡ ((returned (plain v), stages), s)
SameRun ran ((err e, stages), s) =
    (exception_of e.stage ran.0.0 ≡ some e) × (ran.0.1 ≡ stages) × (ran.1 ≡ s)

cons-SameRun :
    {S A : Type 0} (node : Node S A) (x : Ran S A × Sink)
    (y : (Result (Value A) Error × List (Node S A)) × Sink)
    → SameRun x y
    → SameRun ((x.0.0, node ∷ x.0.1), x.1) ((y.0.0, node ∷ y.0.1), y.1)
cons-SameRun node x ((ok v, stages), s) h = ap (λ z. ((z.0.0, node ∷ z.0.1), z.1)) h
cons-SameRun node x ((err e, stages), s) (thrown_e, same, events) =
    (thrown_e, ap (λ ns. node ∷ ns) same, events)

as_value-Plain : {A : Type 0} (o : Outcome A) → PlainOutcome o → PlainOutcome (as_value o)
as_value-Plain (returned (plain a)) h = (_, refl)
as_value-Plain (returned (own_result r)) (b, e) = cc
as_value-Plain (returned (expected_like r)) (b, e) = cc
as_value-Plain (thrown what) h = tt
as_value-Plain thrown_unknown h = tt

invoke-Plain :
    {S A : Type 0} (policy : StageStoragePolicy) (c : Callable S A A) (input : Value A)
    → IsPlain c
    → PlainOutcome (invoke policy c input).0
unfolding invoke
invoke-Plain construct_stages_per_run c input h = h c.initial input
invoke-Plain store_stages_in_engine c input h = h c.object input

module _ {S A : Type 0} (id : StageId) (node : Node S A) (rest : List (Node S A))
    (next next_result : Value A → Run (Ran S A))
    (try_next : Value A → Run (Result (Value A) Error × List (Node S A)))
    (agree : (v : Value A) (s : Sink) → SameRun (next v s) (try_next v s)) where
  continue_stages-SameRun :
      (o : Outcome (Value A)) (s : Sink)
      → PlainOutcome o
      → SameRun
          (continue_stages id node rest next next_result o s)
          ((settle id o >>= continue_run node rest try_next) s)
  unfolding continue_stages settle conclude to_result continue_run exception_error
      unknown_exception_error ◌>>=◌ pure
  continue_stages-SameRun (returned (plain v)) s h = cons-SameRun node _ _ (agree v _)
  continue_stages-SameRun (returned (own_result r)) s (b, e) = cc
  continue_stages-SameRun (returned (expected_like r)) s (b, e) = cc
  continue_stages-SameRun (thrown what) s h = (refl, refl, refl)
  continue_stages-SameRun thrown_unknown s h = (refl, refl, refl)

-- If the stages return plain values or throw, then `run` and `try_run` send the observer the same
-- events and leave the same stages, `run` returns a value exactly if `try_run` does, the same one, and
-- where `try_run` reports an error, `run` throws the exception that the error is made of.
pub run_stages-SameRun :
    {S A : Type 0} (target : TargetError) (policy : StageStoragePolicy) (i : ℕ)
    (stages : List (Callable S A A)) (input : Value A) (s : Sink)
    → All IsPlain stages
    → SameRun
        (run_stages target policy i (map stage stages) input s)
        (try_run_after_result policy i (map stage stages) input s)
unfolding run_stages try_run_after_result invoke_stage ◌>>=◌ pure notify
run_stages-SameRun target policy i [] input s h = refl
run_stages-SameRun target policy i (c ∷ rest) input s (h, hs) =
    let id = stage_id_for (stage c) i in
    let call = invoke policy c input in
    continue_stages-SameRun id (stage call.1) (map stage rest)
      (run_stages target policy (suc i) (map stage rest))
      (run_after_result target policy (suc i) (map stage rest))
      (try_run_after_result policy (suc i) (map stage rest))
      (λ v t. run_stages-SameRun target policy (suc i) rest v t hs) (as_value call.0)
      (send (on_stage_start id) s) (as_value-Plain call.0 (invoke-Plain policy c input h))
