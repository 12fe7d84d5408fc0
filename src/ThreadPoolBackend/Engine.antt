-- ===== src/ThreadPoolBackend/Engine.antt =====
-- `thread_pool_engine` of include/pb/runtime/thread_pool_backend.hpp: stages in order, the fan-ins on
-- the pool. What a run can come to depends on how the pool's workers run the tasks, so a run is a
-- relation between an input and a result.
use pipeline_c.Prelude.{ℕ, suc, ◌≡◌, some, List, [], ◌∷◌}
use pipeline_c.Error.{StageId, Error}
use pipeline_c.Result.{Result, ok, err}
use pipeline_c.Observer.{on_stage_start, Sink, send}
use pipeline_c.Stage.{
  Value, Outcome, Node, stage, type_list_join, selected_branch, fan_in_branch,
  construct_stages_per_run, stage_id_for,
}
use pipeline_c.Sequential.Calls.{invoke, settle}
use pipeline_c.Sequential.Branch.{run_selected_branch}
use pipeline_c.Sequential.Engine.{as_value, as_outcome, visit}
use pipeline_c.ThreadPoolBackend.{CancellationToken, wait, conclude_fan_in}
use pipeline_c.ThreadPoolBackend.System.{System, Reach}

-- the end of `run_stages`: a stage that failed ends the run
abbrev pub Continue :
    {A : Type 0}
    → (next : Value A → Result (Value A) Error → Type 0) → (r last : Result (Value A) Error)
    → Type 0
Continue next (err e) last = last ≡ err e
Continue next (ok output) last = next output last

module _ {S A : Type 0} where
  -- `invoke_stage`, at the token that the cases of the stage read: what a call can give, and the
  -- observer behind it. A fan-in gives what it gives in any state in which its wait returns.
  unfoldable pub InvokeStage :
      (cancel : ℕ → CancellationToken)
      → StageId
      → Node S A
      → (input : Value A) → Sink
      → Outcome (Value A)
      → Sink
      → Type 0
  InvokeStage cancel id (stage c) input s o after =
      (o ≡ as_value (invoke construct_stages_per_run c input).0) × (after ≡ s)
  InvokeStage cancel id (type_list_join c) input s o after =
      (o ≡ as_value (invoke construct_stages_per_run c (visit input)).0) × (after ≡ s)
  InvokeStage cancel id (selected_branch b) input s o after =
      (o ≡ as_outcome (run_selected_branch id b input s).0)
      × (after ≡ (run_selected_branch id b input s).1)
  InvokeStage cancel id (fan_in_branch b) input s o after =
      (system : System S A) × (waited : Result Unit Error) × Reach cancel id input b.cases s system
      × (system.unscheduled ≡ [])
      × (wait system.run.group ≡ some waited)
      × (o ≡ as_outcome (conclude_fan_in id system.run waited system.sink).0)
      × (after ≡ (conclude_fan_in id system.run waited system.sink).1)

  -- `run_stages` from a stage's number on: the result that a run can come to. Behind the last stage
  -- the result is its value.
  unfoldable pub RunStages :
      (cancel : ℕ → ℕ → CancellationToken)
      → (stage_index : ℕ) → List (Node S A)
      → (input : Value A) → Sink
      → Result (Value A) Error
      → Type 0
  unfolding InvokeStage
  RunStages cancel stage_index [] input s last = last ≡ ok input
  RunStages cancel stage_index (node ∷ rest) input s last =
      let id = stage_id_for node stage_index in
      (o : Outcome (Value A)) × (after : Sink) × InvokeStage (cancel stage_index) id node input
        (send (on_stage_start id) s) o after
      × Continue (λ output. RunStages cancel (suc stage_index) rest output (settle id o after).1)
          (settle id o after).0 last
