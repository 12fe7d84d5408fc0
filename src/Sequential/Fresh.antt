-- ===== src/Sequential/Fresh.antt =====
-- The two routines for branch nodes agree: on new stored objects the recursion of
-- `run_selected_branch_cases_with_storage` returns and sends what the loop of
-- `run_selected_branch` does.
use pipeline_c.Prelude.{
  ℕ, suc, ◌≡◌, refl, ap, ◌∙◌, sym, Bool, true, false, ◌||◌, List, [], ◌∷◌, codes, All,
}
use pipeline_c.Error.{StageId, Error}
use pipeline_c.Result.{Result, ok, err}
use pipeline_c.Observer.{on_stage_start, Sink, Run, pure, notify, ◌>>=◌}
use pipeline_c.Stage.{
  Value, Callable, Case, BranchNode, construct_stages_per_run, store_stages_in_engine,
  branch_child_stage_id,
}
use pipeline_c.Sequential.Calls.{invoke, settle, mark_branch_error}
use pipeline_c.Sequential.Branch.{
  Progress, wrap_success, start_progress, evaluate_predicate, run_branch_stage, decide_case,
  try_case, process, process_cases, run_selected_branch, decide_stored_case,
  run_selected_branch_cases_with_storage, run_stored_branch,
}

-- An object in the state of a new one.
abbrev pub IsNew : {S A B : Type 0} → Callable S A B → Type 0
IsNew c = c.object ≡ c.initial

abbrev pub IsNewCase : {S A : Type 0} → Case S A → Type 0
IsNewCase c = IsNew c.predicate × IsNew c.stage

-- What a run returns and sends, without the objects that it leaves.
abbrev pub shown : {X Y : Type 0} → (X × Y) × Sink → X × Sink
shown run = (run.0.0, run.1)

invoke-IsNew :
    {S A B : Type 0} (c : Callable S A B) (input : Value A)
    → IsNew c
    → (invoke store_stages_in_engine c input).0 ≡ (invoke construct_stages_per_run c input).0
unfolding invoke
invoke-IsNew c input h = ap (λ o. (c.call o input).0) h

module _ {S A : Type 0} where
  evaluate_predicate-IsNew :
      (id : StageId) (p : Callable S A Bool) (input : Value A) (s : Sink)
      → IsNew p
      → shown (evaluate_predicate store_stages_in_engine id p input s)
        ≡ shown (evaluate_predicate construct_stages_per_run id p input s)
  unfolding evaluate_predicate ◌>>=◌ pure
  evaluate_predicate-IsNew id p input s h =
      ap (λ o. settle id o (notify (on_stage_start id) s).1) (invoke-IsNew p input h)

  run_branch_stage-IsNew :
      (homogeneous : Bool) (id : StageId) (c : Callable S A A) (input : Value A) (i : ℕ) (s : Sink)
      → IsNew c
      → shown (run_branch_stage store_stages_in_engine homogeneous id c input i s)
        ≡ shown (run_branch_stage construct_stages_per_run homogeneous id c input i s)
  unfolding run_branch_stage ◌>>=◌ pure
  run_branch_stage-IsNew homogeneous id c input i s h =
      ap
        (λ o.
          let run = settle id o (notify (on_stage_start id) s).1 in
          (wrap_success homogeneous i run.0, run.1))
        (invoke-IsNew c input h)

  module _ (homogeneous : Bool) (branch_id : StageId) (input : Value A) where
    -- Once a case has matched or failed, the loop does nothing more.
    process_cases_stop :
        (i : ℕ) (cases : List (Case S A)) (p : Progress A) (s : Sink)
        → (p.matched || p.has_error) ≡ true
        → process_cases homogeneous branch_id input i cases p s ≡ (p, s)
    unfolding process_cases process ◌>>=◌ pure
    process_cases_stop i [] p s h = refl
    process_cases_stop i (c ∷ cases) p s h = rw h (process_cases_stop (suc i) cases p s h)

    abbrev looped : ℕ → List (Case S A) → Progress A → Run (Result (Value A) Error)
    looped i cases p = process_cases homogeneous branch_id input i cases p >>= λ q. pure q.output

    decide-agree :
        (id : StageId) (i : ℕ) (c : Case S A) (p : Callable S A Bool) (cases : List (Case S A))
        (next : Run (Result (Value A) Error × List (Case S A)))
        → IsNew c.stage
        → ((t : Sink) → shown (next t) ≡ looped (suc i) cases (start_progress branch_id) t)
        → (r : Result Bool Error) (s : Sink)
        → shown (
            decide_stored_case homogeneous branch_id id input i
              (record c { predicate = p })
              cases
              next
              r
              s)
          ≡ (decide_case homogeneous branch_id id input i c (start_progress branch_id) r
                >>= looped (suc i) cases)
              s
    unfolding decide_stored_case decide_case start_progress ◌>>=◌ pure
    decide-agree id i c p cases next new h (err e) s =
        sym (ap (λ r. (r.0.output, r.1)) (process_cases_stop (suc i) cases _ s refl))
    decide-agree id i c p cases next new h (ok true) s =
        run_branch_stage-IsNew homogeneous _ c.stage input i _ new
        ∙ sym (ap (λ r. (r.0.output, r.1)) (process_cases_stop (suc i) cases _ _ refl))
    decide-agree id i c p cases next new h (ok false) s = h _

    stored-eq-looped :
        (i : ℕ) (cases : List (Case S A)) (s : Sink)
        → All IsNewCase cases
        → shown (run_selected_branch_cases_with_storage homogeneous branch_id input i cases s)
          ≡ looped i cases (start_progress branch_id) s
    unfolding run_selected_branch_cases_with_storage process_cases process try_case start_progress
        ◌>>=◌ pure
    stored-eq-looped i [] s new = refl
    stored-eq-looped i (c ∷ cases) s (new, others) =
        let id = branch_child_stage_id branch_id c.predicate i (codes "predicate") in
        let p = (evaluate_predicate store_stages_in_engine id c.predicate input s).0.1 in
        decide-agree id i c p cases _ new.1 (λ t. stored-eq-looped (suc i) cases t others) _ _
        ∙ ap
            (λ r.
              (decide_case homogeneous branch_id id input i c (start_progress branch_id) r.0
                  >>= looped (suc i) cases)
                r.1)
            (evaluate_predicate-IsNew id c.predicate input s new.0)

  -- If every stored predicate and stage of a branch node is in the state of a new object, then the
  -- branch that uses the stored objects has the result, and sends the events, of the branch that
  -- constructs new ones.
  pub run_stored_branch-eq :
      (branch_id : StageId) (b : BranchNode S A) (input : Value A) (s : Sink)
      → All IsNewCase b.cases
      → shown (run_stored_branch branch_id b input s) ≡ run_selected_branch branch_id b input s
  unfolding run_stored_branch run_selected_branch ◌>>=◌ pure
  run_stored_branch-eq branch_id b input s new =
      ap (λ r. (mark_branch_error (codes "branch") r.0, r.1))
        (stored-eq-looped b.homogeneous branch_id input 0 b.cases s new)
