-- ===== src/Sequential/Slots.antt =====
-- What a fan-in leaves in its slots and counts in its tally, case by case.
pub mod Spec
use pipeline_c.Prelude.{
  ℕ, suc, ◌+◌, ◌≡◌, refl, ap, ap₂, ◌∙◌, ◌++◌, subst, sym, count_if, Bool, true, false, Option, none,
  some, List, [], ◌∷◌, length, codes, Text, if◌then◌else◌, arith, not,
}
use pipeline_c.Error.{StageId, Error}
use pipeline_c.Result.{Result, ok, err, UserError, to_result}
use pipeline_c.Observer.Emits.{deliver, deliver-append, send-eq-deliver}
use pipeline_c.Sequential.Balanced.FanIns.{run_fan_in_cases-Moving}
use pipeline_c.Observer.{
  Event, on_fan_in_started, on_fan_in_completed, send, Sink, pure, ◌>>=◌, notify, Run,
}
use pipeline_c.Stage.{
  FanInCaseState, skipped, completed, failed, FanInCaseResult, Value, results, Outcome, returned,
  thrown, thrown_unknown, Callable, Case, BranchNode, StageStoragePolicy, branch_child_stage_id,
}
use pipeline_c.Sequential.Calls.{invoke, settle, mark_branch_error}
use pipeline_c.Sequential.Verdict
use pipeline_c.Sequential.Verdict.{verdict, settle-eq-verdict}
use pipeline_c.Sequential.Branch.{evaluate_predicate}
use pipeline_c.Sequential.FanIn.{
  CaseRun, FanInRun, run_fan_in_case_stage, decide_fan_in_case, run_fan_in_case, continue_cases,
  run_fan_in_cases, run_fan_in_branch_impl, run_fan_in_branch, aggregate_result,
}
use pipeline_c.Sequential.Settling.{
  default_slot, mark_completed, mark_failed, is_failed, is_completed, Tally, count_stage, no_tally,
  fail_case, settle_case, settle_fan_in_stage,
}

-- The slot that an outcome of its case's stage leaves.
abbrev pub fill : {A : Type 0} → ℕ → Result A Error → FanInCaseResult A
fill index (ok v) = record { index = index; state = completed; value = some v; diagnostic = none }
fill index (err e) = record {
  index = index;
  state = failed;
  value = none;
  diagnostic = some e.message;
}

settle_case-eq-fill :
    {A : Type 0} (branch_id id : StageId) (i : ℕ) (r : Result A UserError) (s : Sink)
    → (settle_case branch_id id i r (default_slot i) s).0 ≡ fill i (Verdict.normalized id r)
unfolding settle_case fail_case mark_completed mark_failed ◌>>=◌ pure
settle_case-eq-fill branch_id id i (ok v) s = refl
settle_case-eq-fill branch_id id i (err e) s = refl

pub settle_fan_in_stage-eq-fill :
    {A : Type 0} (branch_id id : StageId) (i : ℕ) (o : Outcome A) (s : Sink)
    → (settle_fan_in_stage branch_id id i o (default_slot i) s).0 ≡ fill i (verdict id o)
unfolding settle_fan_in_stage fail_case mark_failed ◌>>=◌ pure
settle_fan_in_stage-eq-fill branch_id id i (returned r) s =
    settle_case-eq-fill branch_id id i (to_result r) s
settle_fan_in_stage-eq-fill branch_id id i (thrown what) s = refl
settle_fan_in_stage-eq-fill branch_id id i thrown_unknown s = refl

-- What a tally gains by one slot.
pub record Counted {A : Type 0} (before after : Tally) (picked : Bool) (slot : FanInCaseResult A)
    : Type 0 where
  pub by_selected : after.selected_count ≡ before.selected_count + (if picked then 1 else 0)
  pub by_failed : after.failed_count ≡ before.failed_count + (if is_failed slot then 1 else 0)
  pub by_completed :
      after.completed_count ≡ before.completed_count + (if is_completed slot then 1 else 0)

count_stage-Counted :
    {A : Type 0} (tally : Tally) (i : ℕ) (r : Result A Error)
    → Counted tally
        (count_stage
          (not (is_failed (fill i r)))
          (record tally { selected_count = tally.selected_count + 1 }))
        true
        (fill i r)
unfolding count_stage is_failed is_completed
count_stage-Counted tally i (ok v) = record {
  by_selected = omega arith;
  by_failed = omega arith;
  by_completed = omega arith;
}
count_stage-Counted tally i (err e) = record {
  by_selected = omega arith;
  by_failed = omega arith;
  by_completed = omega arith;
}

-- Whether a predicate selects its case.
abbrev pub is_picked : Result Bool Error → Bool
is_picked (ok b) = b
is_picked (err e) = false

module _ {S A : Type 0} (policy : StageStoragePolicy) (branch_id : StageId) (input : Value A) where
  -- The slot of one case, from the case and the input alone.
  abbrev pub decided_slot : ℕ → Case S A → Result Bool Error → FanInCaseResult A
  decided_slot i c (err e) = fill i (err e)
  decided_slot i c (ok true) = fill i (
      verdict (branch_child_stage_id branch_id c.stage i (codes "stage"))
        (invoke policy c.stage input).0)
  decided_slot i c (ok false) = default_slot i

  abbrev pub case_slot : ℕ → Case S A → FanInCaseResult A
  case_slot i c = decided_slot i c (
      verdict (branch_child_stage_id branch_id c.predicate i (codes "predicate"))
        (invoke policy c.predicate input).0)

  abbrev pub case_picked : ℕ → Case S A → Bool
  case_picked i c = is_picked (
      verdict (branch_child_stage_id branch_id c.predicate i (codes "predicate"))
        (invoke policy c.predicate input).0)

  abbrev pub picked_count : ℕ → List (Case S A) → ℕ
  picked_count i [] = 0
  picked_count i (c ∷ cases) = (if case_picked i c then 1 else 0) + picked_count (suc i) cases

  abbrev pub case_slots : ℕ → List (Case S A) → List (FanInCaseResult A)
  case_slots i [] = []
  case_slots i (c ∷ cases) = case_slot i c ∷ case_slots (suc i) cases

  pub record CaseFacts (i : ℕ) (picked : Bool) (slot : FanInCaseResult A) (tally : Tally)
      (run : CaseRun S A) : Type 0 where
    pub never_fails : run.outcome ≡ ok tt
    pub own_slot : run.slot ≡ slot
    pub counts : Counted tally run.tally picked slot

  stage_facts :
      (i : ℕ) (c : Case S A) (tally : Tally) (r : Result A Error) (slot : FanInCaseResult A)
      → slot ≡ fill i r
      → CaseFacts i true (fill i r) tally (record {
        outcome = ok tt;
        case = c;
        slot = slot;
        tally =
            count_stage
              (not (is_failed slot))
              (record tally { selected_count = tally.selected_count + 1 });
      })
  stage_facts i c tally r slot e = record {
    never_fails = refl;
    own_slot = e;
    counts = rw e (count_stage-Counted tally i r);
  }

  decide_fan_in_case-facts :
      (id : StageId) (i : ℕ) (c : Case S A) (tally : Tally) (r : Result Bool Error) (s : Sink)
      → CaseFacts i
          (is_picked r)
          (decided_slot i c r)
          tally
          (decide_fan_in_case policy branch_id id input i c (default_slot i) tally r s).0
  unfolding decide_fan_in_case run_fan_in_case_stage ◌>>=◌ pure mark_failed is_failed is_completed
  decide_fan_in_case-facts id i c tally (err e) s = record {
    never_fails = refl;
    own_slot = refl;
    counts = record {
      by_selected = omega arith;
      by_failed = omega arith;
      by_completed = omega arith;
    };
  }
  decide_fan_in_case-facts id i c tally (ok true) s =
      stage_facts i _ tally _ _ (settle_fan_in_stage-eq-fill branch_id _ i _ _)
  decide_fan_in_case-facts id i c tally (ok false) s = record {
    never_fails = refl;
    own_slot = refl;
    counts = record {
      by_selected = omega arith;
      by_failed = omega arith;
      by_completed = omega arith;
    };
  }

  pub run_fan_in_case-facts :
      (i : ℕ) (c : Case S A) (tally : Tally) (s : Sink)
      → CaseFacts i
          (case_picked i c)
          (case_slot i c)
          tally
          (run_fan_in_case policy branch_id input i c (default_slot i) tally s).0
  unfolding run_fan_in_case evaluate_predicate ◌>>=◌ pure
  run_fan_in_case-facts i c tally s =
      subst
        (λ r.
          CaseFacts i (is_picked r) (decided_slot i c r) tally
            (run_fan_in_case policy branch_id input i c (default_slot i) tally s).0)
        (settle-eq-verdict _ (invoke policy c.predicate input).0 _)
        (decide_fan_in_case-facts _ i (record c { predicate = (invoke policy c.predicate input).1 })
          tally _ _)
