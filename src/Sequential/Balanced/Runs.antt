-- ===== src/Sequential/Balanced/Runs.antt =====
-- The events of a whole run are balanced, and the result does not depend on the observer.
use pipeline_c.Prelude.{ℕ, suc, ◌≡◌, ap, List, [], ◌∷◌, some}
use pipeline_c.Error.{StageId, Error}
use pipeline_c.Result.{Result, ok, err}
use pipeline_c.Observer.{Event, Run, Sink}
use pipeline_c.Observer.Emits.{deliver, Emits-value}
use pipeline_c.Stage.{
  Value, Node, stage, type_list_join, selected_branch, fan_in_branch, StageStoragePolicy,
  construct_stages_per_run, store_stages_in_engine, stage_id_for,
}
use pipeline_c.Sequential.Engine.{
  invoke_stage, continue_run, try_run_after_result, SequentialEngine, try_run,
}
use pipeline_c.Sequential.Balanced.{
  Moving, moving_rules, track, Moving-bind, Moving-start, settle-Moving,
}
use pipeline_c.Sequential.Balanced.Branches.{run_selected_branch-Moving, run_stored_branch-Moving}
use pipeline_c.Sequential.Balanced.FanIns.{run_fan_in_branch-Moving}

module _ {S A : Type 0} (a : List StageId) where
  pub invoke_stage-Moving :
      (policy : StageStoragePolicy) (id : StageId) (node : Node S A) (input : Value A)
      → Moving a a (invoke_stage policy id node input)
  unfolding invoke_stage
  invoke_stage-Moving policy id (stage c) input = search moving_rules
  invoke_stage-Moving policy id (type_list_join c) input = search moving_rules
  invoke_stage-Moving construct_stages_per_run id (selected_branch b) input =
      search (moving_rules, run_selected_branch-Moving)
  invoke_stage-Moving store_stages_in_engine id (selected_branch b) input =
      search (moving_rules, run_stored_branch-Moving)
  invoke_stage-Moving policy id (fan_in_branch b) input =
      search (moving_rules, run_fan_in_branch-Moving)

module _ {S A : Type 0} (a : List StageId) where
  continue_run-Moving :
      (node : Node S A) (rest : List (Node S A))
      (next : Value A → Run (Result (Value A) Error × List (Node S A))) (r : Result (Value A) Error)
      → ((x : Value A) → Moving a a (next x))
      → Moving a a (continue_run node rest next r)
  unfolding continue_run
  continue_run-Moving node rest next (err e) h = search moving_rules
  continue_run-Moving node rest next (ok x) h = search (moving_rules, h)

module _ {S A : Type 0} (a : List StageId) where
  pub try_run_after_result-Moving :
      (policy : StageStoragePolicy) (i : ℕ) (nodes : List (Node S A)) (input : Value A)
      → Moving a a (try_run_after_result policy i nodes input)
  unfolding try_run_after_result
  try_run_after_result-Moving policy i [] input = search moving_rules
  try_run_after_result-Moving policy i (node ∷ rest) input =
      let id = stage_id_for node i in
      Moving-bind a (id ∷ a) a _ (Moving-start a id) λ _.
        Moving-bind (id ∷ a) (id ∷ a) a _ (invoke_stage-Moving (id ∷ a) policy id node input) λ x.
          Moving-bind (id ∷ a) a a _ (settle-Moving a id x.0) λ r.
            continue_run-Moving a x.1 rest _ r (try_run_after_result-Moving policy (suc i) rest)

module _ {S A : Type 0} (engine : SequentialEngine S A) (input : Value A) where
  abbrev whole_run : Moving [] [] (try_run_after_result engine.policy 0 engine.stages input)
  whole_run = try_run_after_result-Moving [] engine.policy 0 engine.stages input

  -- What a run sends is a list of events, behind those sent before, in which every start of a stage
  -- is closed by exactly one success, failure or exception of the same stage, the stage that was
  -- started last being closed first, and no stage is left open.
  pub try_run-IsBalanced :
      (events : List Event) × ((try_run engine input).1.observer ≡ deliver events engine.observer)
      × (track events [] ≡ some [])
  unfolding try_run
  try_run-IsBalanced = (
    whole_run.emits.events,
    ap (λ r. r.1) (whole_run.emits.runs engine.observer),
    whole_run.emits.holds [],
  )

  -- An observer changes neither the result of a run nor the stages that the engine keeps: they are
  -- those of the same engine with any other observer, or with none.
  pub try_run-observer :
      (other : Sink)
      → ((try_run (record engine { observer = other }) input).0 ≡ (try_run engine input).0)
        × ((try_run (record engine { observer = other }) input).1.stages
            ≡ (try_run engine input).1.stages)
  unfolding try_run
  try_run-observer other =
      let same = Emits-value whole_run.emits other engine.observer in
      (ap (λ r. r.0) same, ap (λ r. r.1) same)
