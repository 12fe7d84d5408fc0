-- ===== src/Sequential/Balanced/Branches.antt =====
-- The events of a branch node are balanced.
use pipeline_c.Prelude.{ℕ, suc, Bool, true, false, List, [], ◌∷◌}
use pipeline_c.Error.{StageId, Error}
use pipeline_c.Result.{Result, ok, err}
use pipeline_c.Observer.{Run}
use pipeline_c.Stage.{Value, Callable, Case, BranchNode, StageStoragePolicy}
use pipeline_c.Sequential.Branch.{
  Progress, evaluate_predicate, run_branch_stage, decide_case, try_case, process, process_cases,
  run_selected_branch, decide_stored_case, run_selected_branch_cases_with_storage,
  run_stored_branch,
}
use pipeline_c.Sequential.Balanced.{Moving, moving_rules, Moving-then}

module _ {S A : Type 0} (a : List StageId) where
  pub evaluate_predicate-Moving :
      (policy : StageStoragePolicy) (id : StageId) (p : Callable S A Bool) (input : Value A)
      → Moving a a (evaluate_predicate policy id p input)
  unfolding evaluate_predicate
  evaluate_predicate-Moving policy id p input = search moving_rules

  run_branch_stage-Moving :
      (policy : StageStoragePolicy) (h : Bool) (id : StageId) (c : Callable S A A) (input : Value A)
      (i : ℕ)
      → Moving a a (run_branch_stage policy h id c input i)
  unfolding run_branch_stage
  run_branch_stage-Moving policy h id c input i = search moving_rules

  module _ (h : Bool) (branch_id : StageId) (input : Value A) where
    decide_case-Moving :
        (id : StageId) (i : ℕ) (c : Case S A) (progress : Progress A) (r : Result Bool Error)
        → Moving a a (decide_case h branch_id id input i c progress r)
    unfolding decide_case
    decide_case-Moving id i c progress (err e) = search moving_rules
    decide_case-Moving id i c progress (ok true) = search (moving_rules, run_branch_stage-Moving)
    decide_case-Moving id i c progress (ok false) = search moving_rules

    process-Moving :
        (i : ℕ) (c : Case S A) (progress : Progress A)
        → Moving a a (process h branch_id input i c progress)
    unfolding process try_case
    process-Moving i c progress =
        search (moving_rules, evaluate_predicate-Moving, decide_case-Moving)

    process_cases-Moving :
        (i : ℕ) (cases : List (Case S A)) (progress : Progress A)
        → Moving a a (process_cases h branch_id input i cases progress)
    unfolding process_cases
    process_cases-Moving i [] progress = search moving_rules
    process_cases-Moving i (c ∷ cases) progress =
        Moving-then a a _ (process-Moving i c progress) (process_cases-Moving (suc i) cases)

    decide_stored_case-Moving :
        (id : StageId) (i : ℕ) (c : Case S A) (others : List (Case S A))
        (next : Run (Result (Value A) Error × List (Case S A))) (r : Result Bool Error)
        → Moving a a next
        → Moving a a (decide_stored_case h branch_id id input i c others next r)
    unfolding decide_stored_case
    decide_stored_case-Moving id i c others next (err e) hn = search moving_rules
    decide_stored_case-Moving id i c others next (ok true) hn =
        search (moving_rules, run_branch_stage-Moving)
    decide_stored_case-Moving id i c others next (ok false) hn = search moving_rules

    stored_cases-Moving :
        (i : ℕ) (cases : List (Case S A))
        → Moving a a (run_selected_branch_cases_with_storage h branch_id input i cases)
    unfolding run_selected_branch_cases_with_storage
    stored_cases-Moving i [] = search moving_rules
    stored_cases-Moving i (c ∷ cases) =
        let next = stored_cases-Moving (suc i) cases in
        search (moving_rules, evaluate_predicate-Moving, decide_stored_case-Moving)

  pub run_selected_branch-Moving :
      (id : StageId) (b : BranchNode S A) (input : Value A)
      → Moving a a (run_selected_branch id b input)
  unfolding run_selected_branch
  run_selected_branch-Moving id b input = search (moving_rules, process_cases-Moving)

  pub run_stored_branch-Moving :
      (id : StageId) (b : BranchNode S A) (input : Value A)
      → Moving a a (run_stored_branch id b input)
  unfolding run_stored_branch
  run_stored_branch-Moving id b input = search (moving_rules, stored_cases-Moving)
