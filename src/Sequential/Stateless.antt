-- ===== src/Sequential/Stateless.antt =====
-- An engine that constructs its stages for each run keeps no state from one run to the next.
use pipeline_c.Prelude.{ℕ, suc, ◌≡◌, refl, ap, ap₂, ◌∙◌, Bool, true, false, List, [], ◌∷◌, map}
use pipeline_c.Error.{StageId, Error}
use pipeline_c.Result.{Result, ok, err}
use pipeline_c.Observer.{Sink, Run, pure, ◌>>=◌}
use pipeline_c.Stage.{
  Value, Case, Node, stage, type_list_join, selected_branch, fan_in_branch, FanInCaseResult,
  construct_stages_per_run, stage_id_for,
}
use pipeline_c.Sequential.Calls.{invoke}
use pipeline_c.Sequential.Branch.{evaluate_predicate}
use pipeline_c.Sequential.FanIn.{
  CaseRun, FanInRun, run_fan_in_case_stage, decide_fan_in_case, run_fan_in_case, continue_cases,
  run_fan_in_cases, run_fan_in_branch_impl, run_fan_in_branch,
}
use pipeline_c.Sequential.Settling.{default_slot, Tally, no_tally}
use pipeline_c.Sequential.Engine.{
  invoke_stage, continue_run, try_run_after_result, SequentialEngine, try_run, try_run_range,
}
use pipeline_c.Sequential.Balanced.Runs.{try_run-observer}

module _ {S A : Type 0} where
  module _ (branch_id : StageId) (input : Value A) where
    decide_fan_in_case_keeps :
        (id : StageId) (i : ℕ) (c : Case S A) (slot : FanInCaseResult A) (tally : Tally)
        (r : Result Bool Error) (s : Sink)
        → (decide_fan_in_case construct_stages_per_run branch_id id input i c slot tally r s).0.case
          ≡ c
    unfolding decide_fan_in_case run_fan_in_case_stage invoke ◌>>=◌ pure
    decide_fan_in_case_keeps id i c slot tally (err e) s = refl
    decide_fan_in_case_keeps id i c slot tally (ok true) s = refl
    decide_fan_in_case_keeps id i c slot tally (ok false) s = refl

    run_fan_in_case_keeps :
        (i : ℕ) (c : Case S A) (slot : FanInCaseResult A) (tally : Tally) (s : Sink)
        → (run_fan_in_case construct_stages_per_run branch_id input i c slot tally s).0.case ≡ c
    unfolding run_fan_in_case evaluate_predicate invoke ◌>>=◌ pure
    run_fan_in_case_keeps i c slot tally s = decide_fan_in_case_keeps _ i c slot tally _ _

    continue_cases_keeps :
        (i : ℕ) (c : Case S A) (others : List (Case S A)) (one : CaseRun S A)
        (next : Run (FanInRun S A)) (r : Result (Unit {0}) Error) (s : Sink)
        → one.case ≡ c
        → ((t : Sink) → (next t).0.cases ≡ others)
        → (continue_cases i others one next r s).0.cases ≡ c ∷ others
    unfolding continue_cases ◌>>=◌ pure
    continue_cases_keeps i c others one next (err e) s h hn = ap (λ x. x ∷ others) h
    continue_cases_keeps i c others one next (ok u) s h hn = ap₂ ◌∷◌ h (hn s)

    run_fan_in_cases_keeps :
        (i : ℕ) (cases : List (Case S A)) (tally : Tally) (s : Sink)
        → (run_fan_in_cases construct_stages_per_run branch_id input i cases tally s).0.cases
          ≡ cases
    unfolding run_fan_in_cases ◌>>=◌ pure
    run_fan_in_cases_keeps i [] tally s = refl
    run_fan_in_cases_keeps i (c ∷ cases) tally s =
        let one =
          run_fan_in_case construct_stages_per_run branch_id input i c (default_slot i) tally s in
        continue_cases_keeps i c cases one.0 _ one.0.outcome one.1
          (run_fan_in_case_keeps i c (default_slot i) tally s)
          (run_fan_in_cases_keeps (suc i) cases one.0.tally)

  invoke_stage_keeps :
      (id : StageId) (node : Node S A) (input : Value A) (s : Sink)
      → (invoke_stage construct_stages_per_run id node input s).0.1 ≡ node
  unfolding invoke_stage invoke run_fan_in_branch run_fan_in_branch_impl ◌>>=◌ pure
  invoke_stage_keeps id (stage c) input s = refl
  invoke_stage_keeps id (type_list_join c) input s = refl
  invoke_stage_keeps id (selected_branch b) input s = refl
  invoke_stage_keeps id (fan_in_branch b) input s =
      ap (λ cases. fan_in_branch (record b { cases = cases }))
        (run_fan_in_cases_keeps id input 0 b.cases no_tally _)

  continue_run_keeps :
      (node node' : Node S A) (rest : List (Node S A))
      (next : Value A → Run (Result (Value A) Error × List (Node S A))) (r : Result (Value A) Error)
      (s : Sink)
      → node' ≡ node
      → ((v : Value A) (t : Sink) → (next v t).0.1 ≡ rest)
      → (continue_run node' rest next r s).0.1 ≡ node ∷ rest
  unfolding continue_run ◌>>=◌ pure
  continue_run_keeps node node' rest next (err e) s h hn = ap (λ n. n ∷ rest) h
  continue_run_keeps node node' rest next (ok v) s h hn = ap₂ ◌∷◌ h (hn v s)

  try_run_after_result_keeps :
      (i : ℕ) (nodes : List (Node S A)) (input : Value A) (s : Sink)
      → (try_run_after_result construct_stages_per_run i nodes input s).0.1 ≡ nodes
  unfolding try_run_after_result ◌>>=◌ pure
  try_run_after_result_keeps i [] input s = refl
  try_run_after_result_keeps i (node ∷ rest) input s =
      continue_run_keeps node _ rest _ _ _ (invoke_stage_keeps (stage_id_for node i) node input _)
        (try_run_after_result_keeps (suc i) rest)

  -- Behind a run only the observer has changed.
  try_run_keeps :
      (engine : SequentialEngine S A) (input : Value A)
      → engine.policy ≡ construct_stages_per_run
      → (try_run engine input).1 ≡ record engine { observer = (try_run engine input).1.observer }
  unfolding try_run
  try_run_keeps engine input h =
      ap
        (λ stages. record engine {
          stages = stages;
          observer = (try_run_after_result engine.policy 0 engine.stages input engine.observer).1;
        })
        (ap (λ p. (try_run_after_result p 0 engine.stages input engine.observer).0.1) h
          ∙ try_run_after_result_keeps 0 engine.stages input engine.observer)

  later_runs :
      (engine : SequentialEngine S A) (inputs : List (Value A)) (s : Sink)
      → engine.policy ≡ construct_stages_per_run
      → (try_run_range (record engine { observer = s }) inputs).0
        ≡ map (λ x. (try_run engine x).0) inputs
  unfolding try_run_range
  later_runs engine [] s h = refl
  later_runs engine (x ∷ xs) s h =
      let now : SequentialEngine S A = record engine { observer = s } in
      let after = (try_run now x).1 in
      ap₂ ◌∷◌ (try_run-observer engine x s).0 (
        ap (λ (e : SequentialEngine S A). (try_run_range e xs).0) (try_run_keeps now x h)
        ∙ later_runs engine xs after.observer h)

  -- Where stages are constructed for each run, the results of a run over a range are the results
  -- that each input would have on its own, in the order of the inputs.
  pub try_run_range-eq-map :
      (engine : SequentialEngine S A) (inputs : List (Value A))
      → engine.policy ≡ construct_stages_per_run
      → (try_run_range engine inputs).0 ≡ map (λ x. (try_run engine x).0) inputs
  try_run_range-eq-map engine inputs h = later_runs engine inputs engine.observer h
