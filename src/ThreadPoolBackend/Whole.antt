-- ===== src/ThreadPoolBackend/Whole.antt =====
-- The engine of include/pb/runtime/thread_pool_backend.hpp beside the sequential one.
use pipeline_c.Prelude.{ℕ, suc, ◌≡◌, refl, sym, ◌∙◌, ap, subst, false, List, [], ◌∷◌}
use pipeline_c.Error.{StageId, Error}
use pipeline_c.Result.{Result, ok, err}
use pipeline_c.Observer.{on_stage_start, Sink, send, Run, pure, notify, ◌>>=◌}
use pipeline_c.Observer.Emits.{Emits-value}
use pipeline_c.Stage.{
  Value, Outcome, Node, stage, type_list_join, selected_branch, fan_in_branch,
  construct_stages_per_run, stage_id_for,
}
use pipeline_c.Sequential.Calls.{settle}
use pipeline_c.Sequential.Engine.{as_outcome, invoke_stage, continue_run, try_run_after_result}
use pipeline_c.Sequential.Verdict.{verdict, settle-eq-verdict}
use pipeline_c.Sequential.Balanced.Branches.{run_selected_branch-Moving}
use pipeline_c.ThreadPoolBackend.{CancellationToken, stop_requested}
use pipeline_c.ThreadPoolBackend.System.{start}
use pipeline_c.ThreadPoolBackend.Agree.{fan_in-agree}
use pipeline_c.ThreadPoolBackend.Finish.{Reach-Steps, fan_in-finishes}
use pipeline_c.ThreadPoolBackend.Engine.{InvokeStage, Continue, RunStages}

pub Continue-returns :
    {A : Type 0} (next : Value A → Result (Value A) Error → Type 0) (r : Result (Value A) Error)
    → ((w : Value A) → (last : Result (Value A) Error) × next w last)
    → (last : Result (Value A) Error) × Continue next r last
Continue-returns next (ok w) h = h w
Continue-returns next (err e) h = (err e, refl)

module _ {S A : Type 0} where
  -- A stage on the pool gives what it gives in the sequential engine.
  InvokeStage-eq :
      (cancel : ℕ → CancellationToken) (id : StageId) (node : Node S A) (input : Value A)
      (s other : Sink) (o : Outcome (Value A)) (after : Sink)
      → ((j : ℕ) → stop_requested (cancel j) ≡ false)
      → InvokeStage cancel id node input s o after
      → o ≡ (invoke_stage construct_stages_per_run id node input other).0.0
  unfolding InvokeStage invoke_stage ◌>>=◌ pure
  InvokeStage-eq cancel id (stage c) input s other o after live (e, _) = e
  InvokeStage-eq cancel id (type_list_join c) input s other o after live (e, _) = e
  InvokeStage-eq cancel id (selected_branch b) input s other o after live (e, _) =
      e ∙ ap as_outcome (Emits-value (run_selected_branch-Moving [] id b input).emits s other)
  InvokeStage-eq cancel id (fan_in_branch b) input s other o after live
        (system, waited, reach, over, idle, e, _) =
      e ∙ ap as_outcome (fan_in-agree cancel id input b s reach waited other live over idle)

  Continue-eq :
      (node : Node S A) (rest : List (Node S A)) (next : Value A → Result (Value A) Error → Type 0)
      (others : Value A → Run (Result (Value A) Error × List (Node S A)))
      (r last : Result (Value A) Error) (s : Sink)
      → ((w : Value A) (t : Sink) → next w last → last ≡ (others w t).0.0)
      → Continue next r last
      → last ≡ (continue_run node rest others r s).0.0
  unfolding continue_run ◌>>=◌ pure
  Continue-eq node rest next others (ok w) last s h c = h w s c
  Continue-eq node rest next others (err e) last s h c = c

  -- Unless a stop is requested, every result that a run on the pool can come to is the result of the
  -- sequential engine, in whatever order the pool's workers run the tasks of its fan-ins.
  pub RunStages-agree :
      (cancel : ℕ → ℕ → CancellationToken) (i : ℕ) (stages : List (Node S A)) (input : Value A)
      (s other : Sink) (last : Result (Value A) Error)
      → ((k j : ℕ) → stop_requested (cancel k j) ≡ false)
      → RunStages cancel i stages input s last
      → last ≡ (try_run_after_result construct_stages_per_run i stages input other).0.0
  unfolding RunStages try_run_after_result notify ◌>>=◌ pure
  RunStages-agree cancel i [] input s other last live e = e
  RunStages-agree cancel i (node ∷ rest) input s other last live (o, after, called, c) =
      let id = stage_id_for node i in
      let call =
        invoke_stage construct_stages_per_run id node input (send (on_stage_start id) other) in
      let same =
        InvokeStage-eq (cancel i) id node input (send (on_stage_start id) s)
          (send (on_stage_start id) other) o after (live i) called in
      Continue-eq call.0.1 rest (λ w. RunStages cancel (suc i) rest w (settle id o after).1)
        (try_run_after_result construct_stages_per_run (suc i) rest) (settle id call.0.0 call.1).0
        last (settle id call.0.0 call.1).1
        (λ w t next. RunStages-agree cancel (suc i) rest w (settle id o after).1 t last live next)
        (subst (λ r. Continue (λ w. RunStages cancel (suc i) rest w (settle id o after).1) r last)
          (settle-eq-verdict id o after
            ∙ ap (verdict id) same
            ∙ sym (settle-eq-verdict id call.0.0 call.1))
          c)

  InvokeStage-returns :
      (cancel : ℕ → CancellationToken) (id : StageId) (node : Node S A) (input : Value A) (s : Sink)
      → (o : Outcome (Value A)) × (after : Sink) × InvokeStage cancel id node input s o after
  unfolding InvokeStage
  InvokeStage-returns cancel id (stage c) input s = (_, s, (refl, refl))
  InvokeStage-returns cancel id (type_list_join c) input s = (_, s, (refl, refl))
  InvokeStage-returns cancel id (selected_branch b) input s = (_, _, (refl, refl))
  InvokeStage-returns cancel id (fan_in_branch b) input s =
      let (t, steps, over, idle) = fan_in-finishes cancel id input b.cases s start in
      (_, _, (t, ok tt, Reach-Steps cancel id input start steps, over, idle, refl, refl))

  -- There is a run on the pool that comes to a result.
  pub RunStages-returns :
      (cancel : ℕ → ℕ → CancellationToken) (i : ℕ) (stages : List (Node S A)) (input : Value A)
      (s : Sink)
      → (last : Result (Value A) Error) × RunStages cancel i stages input s last
  unfolding RunStages
  RunStages-returns cancel i [] input s = (ok input, refl)
  RunStages-returns cancel i (node ∷ rest) input s =
      let id = stage_id_for node i in
      let (o, after, called) =
        InvokeStage-returns (cancel i) id node input (send (on_stage_start id) s) in
      let (last, ends) =
        Continue-returns (λ w. RunStages cancel (suc i) rest w (settle id o after).1)
          (settle id o after).0
          (λ w. RunStages-returns cancel (suc i) rest w (settle id o after).1) in
      (last, (o, after, called, ends))
