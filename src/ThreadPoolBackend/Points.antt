-- ===== src/ThreadPoolBackend/Points.antt =====
-- Where a run of the engine of include/pb/runtime/thread_pool_backend.hpp can stand, and what it can
-- come to from there.
use pipeline_c.Prelude.{ℕ, suc, ◌≡◌, refl, sym, subst, some, List, [], ◌∷◌}
use pipeline_c.Error.{StageId, Error}
use pipeline_c.Result.{Result, ok}
use pipeline_c.Observer.{on_stage_start, Sink, send}
use pipeline_c.Stage.{Value, Outcome, BranchNode, Node, fan_in_branch, stage_id_for}
use pipeline_c.Sequential.Calls.{settle}
use pipeline_c.Sequential.Engine.{as_outcome}
use pipeline_c.ThreadPoolBackend.{CancellationToken, wait, conclude_fan_in}
use pipeline_c.ThreadPoolBackend.System.{System, Reach, Steps}
use pipeline_c.ThreadPoolBackend.Finish.{Reach-Steps, fan_in-finishes}
use pipeline_c.ThreadPoolBackend.Engine.{InvokeStage, Continue, RunStages}
use pipeline_c.ThreadPoolBackend.Whole.{Continue-returns, RunStages-returns}

module _ {S A : Type 0} (cancel : ℕ → ℕ → CancellationToken) where
  -- In front of a stage, inside a fan-in, with what its threads have come to, or behind a stage that
  -- gave a value.
  pub data Point : (stage_index : ℕ) → List (Node S A) → (input : Value A) → Sink → Type 0 where
    in_front :
        {i : ℕ} {stages : List (Node S A)} {input : Value A} {s : Sink} → Point i stages input s
    inside :
        {i : ℕ} {b : BranchNode S A} {rest : List (Node S A)} {input : Value A} {s : Sink}
        (system : System S A)
        → (let id = stage_id_for (fan_in_branch b) i in
            Reach (cancel i) id input b.cases (send (on_stage_start id) s) system)
        → Point i (fan_in_branch b ∷ rest) input s
    behind :
        {i : ℕ} {node : Node S A} {rest : List (Node S A)} {input : Value A} {s : Sink}
        (o : Outcome (Value A)) (after : Sink) (output : Value A)
        → (let id = stage_id_for node i in
            InvokeStage (cancel i) id node input (send (on_stage_start id) s) o after)
        → (settle (stage_id_for node i) o after).0 ≡ ok output
        → Point (suc i) rest output (settle (stage_id_for node i) o after).1
        → Point i (node ∷ rest) input s

  -- A fan-in in this state goes on, by steps of its threads, until its wait returns, and the stages
  -- behind it give the result.
  pub record Resumed (i : ℕ) (id : StageId) (rest : List (Node S A)) (input : Value A)
      (system : System S A) (last : Result (Value A) Error) : Type 0 where
    final : System S A
    waited : Result Unit Error
    steps : Steps (cancel i) id input system final
    scheduled : final.unscheduled ≡ []
    idle : wait final.run.group ≡ some waited
    stages_behind :
        let c = conclude_fan_in id final.run waited final.sink in
        let settled = settle id (as_outcome c.0) c.1 in
        Continue (λ output. RunStages cancel (suc i) rest output settled.1) settled.0 last

  -- From this point on the run can come to this result.
  pub Ends :
      {i : ℕ} {stages : List (Node S A)} {input : Value A} {s : Sink}
      → Point i stages input s
      → Result (Value A) Error
      → Type 0
  Ends {i = i} {stages = stages} {input = input} {s = s} in_front last =
      RunStages cancel i stages input s last
  Ends (inside {i = i} {b = b} {rest = rest} {input = input} system reach) last =
      Resumed i (stage_id_for (fan_in_branch b) i) rest input system last
  Ends (behind o after output called given p) last = Ends p last

  -- Wherever a run of stages on a pool that is not stopped stands, in whatever order its steps were
  -- made and whatever stops are requested, if the observer's handlers return the run can go on from
  -- there to a result, which is one that the run from its beginning can come to.
  pub Point-Ends :
      {i : ℕ} {stages : List (Node S A)} {input : Value A} {s : Sink} (p : Point i stages input s)
      → (last : Result (Value A) Error) × Ends p last × RunStages cancel i stages input s last
  unfolding Ends RunStages InvokeStage
  Point-Ends {i = i} {stages = stages} {input = input} {s = s} in_front =
      let (last, ends) = RunStages-returns cancel i stages input s in (last, ends, ends)
  Point-Ends (inside {i = i} {b = b} {rest = rest} {input = input} {s = s} system reach) =
      let id = stage_id_for (fan_in_branch b) i in
      let before = send (on_stage_start id) s in
      let (final, steps, over, idle) = fan_in-finishes (cancel i) id input b.cases before reach in
      let c = conclude_fan_in id final.run (ok tt) final.sink in
      let settled = settle id (as_outcome c.0) c.1 in
      let (last, ends) =
        Continue-returns (λ output. RunStages cancel (suc i) rest output settled.1) settled.0
          (λ output. RunStages-returns cancel (suc i) rest output settled.1) in
      let resumed : Resumed i id rest input system last = record {
        final = final;
        waited = ok tt;
        steps = steps;
        scheduled = over;
        idle = idle;
        stages_behind = ends;
      } in
      let reached = Reach-Steps (cancel i) id input reach steps in
      (last, resumed, (_, _, (final, ok tt, reached, over, idle, refl, refl), ends))
  Point-Ends (behind {i = i} {node = node} {rest = rest} o after output called given p) =
      let (last, ends, run) = Point-Ends p in
      let settled = settle (stage_id_for node i) o after in
      let whole =
        subst (λ r. Continue (λ w. RunStages cancel (suc i) rest w settled.1) r last) (sym given)
          run in
      (last, ends, (o, after, called, whole))
