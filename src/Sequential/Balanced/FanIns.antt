-- ===== src/Sequential/Balanced/FanIns.antt =====
-- The events of a fan-in node are balanced.
use pipeline_c.Prelude.{ℕ, suc, Bool, true, false, List, [], ◌∷◌}
use pipeline_c.Error.{StageId, Error}
use pipeline_c.Result.{Result, ok, err, UserError, to_result}
use pipeline_c.Observer.{Run}
use pipeline_c.Stage.{
  FanInCaseResult, Value, Outcome, returned, thrown, thrown_unknown, Callable, Case, BranchNode,
  StageStoragePolicy,
}
use pipeline_c.Sequential.Calls.{notify_stage_failure, notify_stage_exception}
use pipeline_c.Sequential.FanIn.{
  FanInRun, CaseRun, run_fan_in_case_stage, decide_fan_in_case, run_fan_in_case, continue_cases,
  run_fan_in_cases, run_fan_in_branch_impl, run_fan_in_branch,
}
use pipeline_c.Sequential.Settling.{Tally, fail_case, settle_case, settle_fan_in_stage}
use pipeline_c.Sequential.Balanced.{
  Moving, moving_rules, Moving-bind, Moving-success, Moving-pure, Moving-start, Moving-failure,
  Moving-exception,
}
use pipeline_c.Sequential.Balanced.Branches.{evaluate_predicate-Moving}

module _ {A : Type 0} (a : List StageId) (branch_id id : StageId) (i : ℕ) where
  fail_case-Moving :
      (report : StageId → Error → Run (Unit {0})) (e : Error) (slot : FanInCaseResult A)
      → Moving (id ∷ a) a (report id e)
      → Moving (id ∷ a) a (fail_case report branch_id id i e slot)
  unfolding fail_case
  fail_case-Moving report e slot h = Moving-bind (id ∷ a) a a _ h λ _. search moving_rules

  settle_case-Moving :
      (r : Result A UserError) (slot : FanInCaseResult A)
      → Moving (id ∷ a) a (settle_case branch_id id i r slot)
  unfolding settle_case
  settle_case-Moving (ok v) slot =
      Moving-bind (id ∷ a) a a _ (Moving-success a id) λ _. Moving-pure a _
  settle_case-Moving (err e) slot =
      fail_case-Moving notify_stage_failure _ slot (Moving-failure a id _)

  settle_fan_in_stage-Moving :
      (o : Outcome A) (slot : FanInCaseResult A)
      → Moving (id ∷ a) a (settle_fan_in_stage branch_id id i o slot)
  unfolding settle_fan_in_stage
  settle_fan_in_stage-Moving (returned r) slot = settle_case-Moving (to_result r) slot
  settle_fan_in_stage-Moving (thrown what) slot =
      fail_case-Moving notify_stage_exception _ slot (Moving-exception a id _)
  settle_fan_in_stage-Moving thrown_unknown slot =
      fail_case-Moving notify_stage_exception _ slot (Moving-exception a id _)

module _ {S A : Type 0} (a : List StageId) (policy : StageStoragePolicy) (branch_id : StageId) where
  run_fan_in_case_stage-Moving :
      (id : StageId) (c : Callable S A A) (i : ℕ) (input : Value A) (slot : FanInCaseResult A)
      → Moving a a (run_fan_in_case_stage policy branch_id id c i input slot)
  unfolding run_fan_in_case_stage
  run_fan_in_case_stage-Moving id c i input slot =
      Moving-bind a (id ∷ a) a _ (Moving-start a id) λ _.
        Moving-bind (id ∷ a) a a _ (settle_fan_in_stage-Moving a branch_id id i _ slot)
          λ _. Moving-pure a _

  module _ (input : Value A) where
    decide_fan_in_case-Moving :
        (id : StageId) (i : ℕ) (c : Case S A) (slot : FanInCaseResult A) (tally : Tally)
        (r : Result Bool Error)
        → Moving a a (decide_fan_in_case policy branch_id id input i c slot tally r)
    unfolding decide_fan_in_case
    decide_fan_in_case-Moving id i c slot tally (err e) = search moving_rules
    decide_fan_in_case-Moving id i c slot tally (ok true) =
        search (moving_rules, run_fan_in_case_stage-Moving) depth 8
    decide_fan_in_case-Moving id i c slot tally (ok false) = search moving_rules

    run_fan_in_case-Moving :
        (i : ℕ) (c : Case S A) (slot : FanInCaseResult A) (tally : Tally)
        → Moving a a (run_fan_in_case policy branch_id input i c slot tally)
    unfolding run_fan_in_case
    run_fan_in_case-Moving i c slot tally =
        search (moving_rules, evaluate_predicate-Moving, decide_fan_in_case-Moving)

    continue_cases-Moving :
        (i : ℕ) (others : List (Case S A)) (one : CaseRun S A) (next : Run (FanInRun S A))
        (r : Result (Unit {0}) Error)
        → Moving a a next
        → Moving a a (continue_cases i others one next r)
    unfolding continue_cases
    continue_cases-Moving i others one next (err e) h = search moving_rules
    continue_cases-Moving i others one next (ok u) h = search moving_rules

    pub run_fan_in_cases-Moving :
        (i : ℕ) (cases : List (Case S A)) (tally : Tally)
        → Moving a a (run_fan_in_cases policy branch_id input i cases tally)
    unfolding run_fan_in_cases
    run_fan_in_cases-Moving i [] tally = search moving_rules
    run_fan_in_cases-Moving i (c ∷ cases) tally =
        Moving-bind a a a _ (run_fan_in_case-Moving i c _ tally) λ one.
          continue_cases-Moving i cases one _ one.outcome
            (run_fan_in_cases-Moving (suc i) cases one.tally)

  pub run_fan_in_branch-Moving :
      (b : BranchNode S A) (input : Value A)
      → Moving a a (run_fan_in_branch policy branch_id b input)
  unfolding run_fan_in_branch run_fan_in_branch_impl
  run_fan_in_branch-Moving b input = search (moving_rules, run_fan_in_cases-Moving) depth 8
