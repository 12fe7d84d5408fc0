-- ===== src/Sequential/RunAgrees.antt =====
-- `run` of the engine of include/pb/runtime/sequential.hpp beside its `try_run`.
use pipeline_c.Prelude.{ℕ, suc, ◌≡◌, ◌≢◌, refl, ap, Option, none, some, List, [], ◌∷◌}
use pipeline_c.Error.{StageId, Error}
use pipeline_c.Result.{Result, ok, err, UserError, own_result, to_result}
use pipeline_c.Observer.{on_stage_start, Sink, Run, pure, notify, send, ◌>>=◌}
use pipeline_c.Stage.{
  Value, Outcome, returned, thrown, thrown_unknown, Node, StageStoragePolicy, stage_id_for,
}
use pipeline_c.Sequential.Calls.{conclude, settle}
use pipeline_c.Sequential.Engine.{invoke_stage, continue_run, try_run_after_result}
use pipeline_c.Sequential.TypedRun.{
  TargetError, Ran, error_or_throw, catch_run, proceed, after_call, run_after_result,
}

-- An outcome that is no value.
abbrev pub Failed : {B : Type 0} → Outcome B → Type 0
Failed {B} o = (v : B) → o ≢ returned (own_result (ok v))

-- What `run_after_result` comes to beside what `try_run_after_result` does: the same value with the
-- same events and stages, or else no value, and the same stages.
abbrev pub Agrees :
    {S A : Type 0} → Ran S A × Sink → (Result (Value A) Error × List (Node S A)) × Sink → Type 0
Agrees ran ((ok v, stages), s) = ran ≡ ((returned (own_result (ok v)), stages), s)
Agrees ran ((err e, stages), s) = Failed ran.0.0 × (ran.0.1 ≡ stages)

error_or_throw-Failed :
    {B : Type 0} (construct : Option (Error → UserError)) (e : Error) (o : Outcome B)
    → Failed o
    → Failed (error_or_throw construct e o)
unfolding error_or_throw
error_or_throw-Failed none e o h = h
error_or_throw-Failed (some construct) e o h = λ v. cc

cons-Agrees :
    {S A : Type 0} (node : Node S A) (x : Ran S A × Sink)
    (y : (Result (Value A) Error × List (Node S A)) × Sink)
    → Agrees x y
    → Agrees ((x.0.0, node ∷ x.0.1), x.1) ((y.0.0, node ∷ y.0.1), y.1)
cons-Agrees node x ((ok v, stages), s) h = ap (λ z. ((z.0.0, node ∷ z.0.1), z.1)) h
cons-Agrees node x ((err e, stages), s) (failed, same) = (failed, ap (λ ns. node ∷ ns) same)

module _ {S A : Type 0} (target : TargetError) (id : StageId) where
  -- The `catch` blocks keep a value, and make none.
  catch_run-Agrees :
      (ran : Ran S A) (s : Sink) (other : (Result (Value A) Error × List (Node S A)) × Sink)
      → Agrees (ran, s) other
      → Agrees (catch_run target id ran s) other
  unfolding catch_run ◌>>=◌ pure
  catch_run-Agrees (returned r, stages) s other h = h
  catch_run-Agrees (thrown what, stages) s ((ok v, stages'), s') h = cc
  catch_run-Agrees (thrown what, stages) s ((err e, stages'), s') (failed, same) =
      (error_or_throw-Failed target.from_error _ _ failed, same)
  catch_run-Agrees (thrown_unknown, stages) s ((ok v, stages'), s') h = cc
  catch_run-Agrees (thrown_unknown, stages) s ((err e, stages'), s') (failed, same) =
      (error_or_throw-Failed target.from_error _ _ failed, same)

  module _ (node : Node S A) (rest : List (Node S A)) (next : Value A → Run (Ran S A))
      (try_next : Value A → Run (Result (Value A) Error × List (Node S A)))
      (agree : (v : Value A) (s : Sink) → Agrees (next v s) (try_next v s)) where
    proceed-Agrees :
        (r : Result (Value A) UserError) (s : Sink)
        → Agrees
            (proceed target id node rest next r s)
            ((conclude id r >>= continue_run node rest try_next) s)
    unfolding proceed conclude continue_run ◌>>=◌ pure
    proceed-Agrees (ok v) s = cons-Agrees node _ _ (agree v _)
    proceed-Agrees (err e) s = ((λ v. cc), refl)

    after_call-Agrees :
        (o : Outcome (Value A)) (s : Sink)
        → Agrees
            (after_call target id node rest next o s)
            ((settle id o >>= continue_run node rest try_next) s)
    unfolding after_call settle continue_run ◌>>=◌ pure
    after_call-Agrees (returned r) s = proceed-Agrees (to_result r) s
    after_call-Agrees (thrown what) s = ((λ v. cc), refl)
    after_call-Agrees thrown_unknown s = ((λ v. cc), refl)

-- Whatever error type a run returns, it returns a value if `try_run` does, the same one, and has then
-- sent the observer the same events; if `try_run` fails, the run returns no value. In both cases it
-- leaves the stages that `try_run` leaves.
pub run_after_result-Agrees :
    {S A : Type 0} (target : TargetError) (policy : StageStoragePolicy) (i : ℕ)
    (stages : List (Node S A)) (input : Value A) (s : Sink)
    → Agrees
        (run_after_result target policy i stages input s)
        (try_run_after_result policy i stages input s)
unfolding run_after_result try_run_after_result ◌>>=◌ pure notify
run_after_result-Agrees target policy i [] input s = refl
run_after_result-Agrees target policy i (node ∷ rest) input s =
    let id = stage_id_for node i in
    let call = invoke_stage policy id node input (send (on_stage_start id) s) in
    let ran =
      after_call target id call.0.1 rest (run_after_result target policy (suc i) rest) call.0.0
        call.1 in
    catch_run-Agrees target id ran.0 ran.1 _ (
      after_call-Agrees target id call.0.1 rest (run_after_result target policy (suc i) rest)
        (try_run_after_result policy (suc i) rest)
        (λ v t. run_after_result-Agrees target policy (suc i) rest v t) call.0.0 call.1)
