-- ===== src/ThreadPoolBackend/Slots.antt =====
-- What a parallel fan-in of include/pb/runtime/thread_pool_backend.hpp should leave in each slot and
-- in its counts, from the cases, the input and the token alone; and what its steps do to them.
use pipeline_c.Prelude.{
  ℕ, suc, ◌+◌, ◌≡◌, refl, ap, ◌∙◌, Bool, true, false, not, ◌&&◌, none, some, List, [], ◌∷◌, ◌++◌,
  length, get_elem?, set, if◌then◌else◌, codes, arith,
}
use pipeline_c.Error.{StageId, Error}
use pipeline_c.Result.{Result, ok, err}
use pipeline_c.Observer.{on_stage_start, Sink, pure, notify, ◌>>=◌}
use pipeline_c.Stage.{FanInCaseResult, Value, Case, construct_stages_per_run, branch_child_stage_id}
use pipeline_c.Sequential.Calls.{invoke}
use pipeline_c.Sequential.Verdict.{verdict, settle-eq-verdict}
use pipeline_c.Sequential.Branch.{evaluate_predicate}
use pipeline_c.Sequential.FanIn.{run_fan_in_case_stage}
use pipeline_c.Sequential.Settling.{default_slot, mark_failed, settle_fan_in_stage}
use pipeline_c.Sequential.Slots.{fill, settle_fan_in_stage-eq-fill, is_picked, decided_slot}
use pipeline_c.ThreadPoolBackend.{
  CancellationToken, stop_requested, add, finish_group, ParallelRun, slot_at, post_fan_in_case,
  schedule_selected, schedule_decided, schedule_case, run_task,
}

pub slot_at-some :
    {A : Type 0} (slots : List (FanInCaseResult A)) (i : ℕ) (slot : FanInCaseResult A)
    → get_elem? slots i ≡ some slot
    → slot_at slots i ≡ slot
slot_at-some slots i slot h = rw (slot_at, h) refl

-- A sum over cases, from the index of the first.
abbrev pub case_sum : {S A : Type 0} → (ℕ → Case S A → ℕ) → ℕ → List (Case S A) → ℕ
case_sum f i [] = 0
case_sum f i (c ∷ cases) = f i c + case_sum f (suc i) cases

pub case_sum-snoc :
    {S A : Type 0} (f : ℕ → Case S A → ℕ) (i : ℕ) (cases : List (Case S A)) (c : Case S A)
    → case_sum f i (cases ++ c ∷ []) ≡ case_sum f i cases + f (i + length cases) c
case_sum-snoc f i [] c = let e : i ≡ i + 0 = omega arith in omega (arith, ap (λ k. f k c) e)
case_sum-snoc f i (x ∷ cases) c =
    let e : suc i + length cases ≡ i + suc (length cases) = omega arith in
    omega (arith, case_sum-snoc f (suc i) cases c, ap (λ k. f k c) e)

-- The slot and the tally behind a case that is scheduled, from the verdict of its predicate.
abbrev pub scheduled_run :
    {S A : Type 0}
    → (cancelled : Bool) → ℕ
    → Case S A
    → ParallelRun S A
    → Result Bool Error
    → ParallelRun S A
scheduled_run cancelled i c run (err e) = record run {
  slots = set run.slots i (mark_failed e.message (slot_at run.slots i));
  tally = record run.tally { failed_count = run.tally.failed_count + 1 };
}
scheduled_run true i c run (ok true) = run
scheduled_run false i c run (ok true) = record run {
  tally = record run.tally { selected_count = run.tally.selected_count + 1 };
  group = add run.group;
  posted = run.posted ++ (i, c) ∷ [];
}
scheduled_run cancelled i c run (ok false) = run

abbrev pub is_error : Result Bool Error → Bool
is_error (err e) = true
is_error (ok b) = false

module _ {S A : Type 0} (cancel : ℕ → CancellationToken) (branch_id : StageId)
    (input : Value A) where
  abbrev pub predicate_verdict : ℕ → Case S A → Result Bool Error
  predicate_verdict i c =
      verdict (branch_child_stage_id branch_id c.predicate i (codes "predicate"))
        (invoke construct_stages_per_run c.predicate input).0

  -- a cancelled case leaves its slot as it is
  abbrev pub parallel_slot_of :
      (cancelled : Bool) → ℕ → Case S A → Result Bool Error → FanInCaseResult A
  parallel_slot_of cancelled i c (err e) =
      decided_slot construct_stages_per_run branch_id input i c (err e)
  parallel_slot_of cancelled i c (ok false) = default_slot i
  parallel_slot_of true i c (ok true) = default_slot i
  parallel_slot_of false i c (ok true) =
      decided_slot construct_stages_per_run branch_id input i c (ok true)

  abbrev pub parallel_slot : ℕ → Case S A → FanInCaseResult A
  parallel_slot i c = parallel_slot_of (stop_requested (cancel i)) i c (predicate_verdict i c)

  abbrev pub parallel_slots : ℕ → List (Case S A) → List (FanInCaseResult A)
  parallel_slots i [] = []
  parallel_slots i (c ∷ cases) = parallel_slot i c ∷ parallel_slots (suc i) cases

  abbrev pub runs_case : ℕ → Case S A → Bool
  runs_case i c = is_picked (predicate_verdict i c) && not (stop_requested (cancel i))

  abbrev pub selected_sum : ℕ → List (Case S A) → ℕ
  selected_sum = case_sum (λ i c. if runs_case i c then 1 else 0)

  abbrev pub refused_sum : ℕ → List (Case S A) → ℕ
  refused_sum = case_sum (λ i c. if is_error (predicate_verdict i c) then 1 else 0)

  schedule_decided-run :
      (token : CancellationToken) (id : StageId) (i : ℕ) (c : Case S A) (run : ParallelRun S A)
      (r : Result Bool Error) (s : Sink)
      → (schedule_decided token false branch_id id i c run r s).0
        ≡ scheduled_run (stop_requested token) i c run r
  unfolding schedule_decided schedule_selected post_fan_in_case stop_requested ◌>>=◌ pure
  schedule_decided-run token id i c run (err e) s = refl
  schedule_decided-run none id i c run (ok true) s = refl
  schedule_decided-run (some true) id i c run (ok true) s = refl
  schedule_decided-run (some false) id i c run (ok true) s = refl
  schedule_decided-run token id i c run (ok false) s = refl

  pub schedule_case-run :
      (token : CancellationToken) (i : ℕ) (c : Case S A) (run : ParallelRun S A) (s : Sink)
      → (schedule_case token false branch_id input i c run s).0
        ≡ scheduled_run (stop_requested token) i c run (predicate_verdict i c)
  unfolding schedule_case evaluate_predicate ◌>>=◌ pure
  schedule_case-run token i c run s =
      schedule_decided-run token _ i c run _ _
      ∙ ap (scheduled_run (stop_requested token) i c run)
          (settle-eq-verdict _ (invoke construct_stages_per_run c.predicate input).0 _)

  -- what a case's stage makes of the input
  abbrev pub stage_slot : ℕ → Case S A → FanInCaseResult A
  stage_slot i c = fill i (
      verdict (branch_child_stage_id branch_id c.stage i (codes "stage"))
        (invoke construct_stages_per_run c.stage input).0)

  pub run_task-run :
      (i : ℕ) (c : Case S A) (run : ParallelRun S A) (s : Sink)
      → slot_at run.slots i ≡ default_slot i
      → (run_task branch_id input (i, c) run s).0 ≡ record run {
        slots = set run.slots i (stage_slot i c);
        group = finish_group (ok tt) run.group;
      }
  unfolding run_task run_fan_in_case_stage ◌>>=◌ pure
  run_task-run i c run s h =
      let id = branch_child_stage_id branch_id c.stage i (codes "stage") in
      let o = (invoke construct_stages_per_run c.stage input).0 in
      let t = (notify (on_stage_start id) s).1 in
      ap
        (λ slot. record run {
          slots = set run.slots i slot;
          group = finish_group (ok tt) run.group;
        })
        (ap (λ x. (settle_fan_in_stage branch_id id i o x t).0) h
          ∙ settle_fan_in_stage-eq-fill branch_id id i o t)
