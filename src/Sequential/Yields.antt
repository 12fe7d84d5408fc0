-- ===== src/Sequential/Yields.antt =====
-- What holds of every value that a stage call can give holds of the value of its branch or stage in
-- include/pb/runtime/sequential.hpp.
use pipeline_c.Prelude.{
  ℕ, suc, sym, subst, Bool, true, false, ◌||◌, List, [], ◌∷◌, Bool-cases, inl, inr, Text,
}
use pipeline_c.Error.{StageId, Error, has_message}
use pipeline_c.Result.{Result, ok, err, plain, own_result, expected_like, to_result}
use pipeline_c.Observer.{Sink, Run, pure, ◌>>=◌}
use pipeline_c.Stage.{
  Value, atom, Outcome, returned, thrown, thrown_unknown, Callable, Case, BranchNode,
  StageStoragePolicy, construct_stages_per_run, store_stages_in_engine,
}
use pipeline_c.Sequential.Calls.{invoke, settle, mark_branch_error}
use pipeline_c.Sequential.Verdict.{verdict, settle-eq-verdict}
use pipeline_c.Sequential.Branch.{
  Progress, selected_branch_success, wrap_success, unselected_branch_error, start_progress,
  run_branch_stage, decide_case, try_case, process, process_cases, run_selected_branch,
  decide_stored_case, run_selected_branch_cases_with_storage, run_stored_branch,
}
use pipeline_c.Sequential.Engine.{as_value}

-- The value of a result, if there is one, has the property.
abbrev pub OkAll : {B E : Type 0} → (B → Type 0) → Result B E → Type 0
OkAll P (ok b) = P b
OkAll P (err e) = Unit

-- What a call returns, if it returns a value, has the property.
abbrev pub Promises : {B : Type 0} → (B → Type 0) → Outcome B → Type 0
Promises P (returned (plain b)) = P b
Promises P (returned (own_result r)) = OkAll P r
Promises P (returned (expected_like r)) = OkAll P r
Promises P (thrown what) = Unit
Promises P thrown_unknown = Unit

pub verdict-OkAll :
    {B : Type 0} (P : B → Type 0) (id : StageId) (o : Outcome B)
    → Promises P o
    → OkAll P (verdict id o)
unfolding to_result
verdict-OkAll P id (returned (plain b)) h = h
verdict-OkAll P id (returned (own_result (ok b))) h = h
verdict-OkAll P id (returned (own_result (err e))) h = tt
verdict-OkAll P id (returned (expected_like (ok b))) h = h
verdict-OkAll P id (returned (expected_like (err e))) h = tt
verdict-OkAll P id (thrown what) h = tt
verdict-OkAll P id thrown_unknown h = tt

pub Promises-map :
    {B : Type 0} (P Q : B → Type 0) (o : Outcome B)
    → ((b : B) → P b → Q b)
    → Promises P o
    → Promises Q o
Promises-map P Q (returned (plain b)) f h = f b h
Promises-map P Q (returned (own_result (ok b))) f h = f b h
Promises-map P Q (returned (own_result (err e))) f h = tt
Promises-map P Q (returned (expected_like (ok b))) f h = f b h
Promises-map P Q (returned (expected_like (err e))) f h = tt
Promises-map P Q (thrown what) f h = tt
Promises-map P Q thrown_unknown f h = tt

pub settle-OkAll :
    {B : Type 0} (P : B → Type 0) (id : StageId) (o : Outcome B) (s : Sink)
    → Promises P o
    → OkAll P (settle id o s).0
settle-OkAll P id o s h = subst (OkAll P) (sym (settle-eq-verdict id o s)) (verdict-OkAll P id o h)

pub as_value-Promises :
    {A : Type 0} (P : Value A → Type 0) (o : Outcome A)
    → Promises (λ a. P (atom a)) o
    → Promises P (as_value o)
as_value-Promises P (returned (plain a)) h = h
as_value-Promises P (returned (own_result (ok a))) h = h
as_value-Promises P (returned (own_result (err e))) h = tt
as_value-Promises P (returned (expected_like (ok a))) h = h
as_value-Promises P (returned (expected_like (err e))) h = tt
as_value-Promises P (thrown what) h = tt
as_value-Promises P thrown_unknown h = tt

pub mark_branch_error-OkAll :
    {B : Type 0} (P : B → Type 0) (name : Text) (r : Result B Error)
    → OkAll P r
    → OkAll P (mark_branch_error name r)
unfolding mark_branch_error
mark_branch_error-OkAll P name (ok b) h = h
mark_branch_error-OkAll P name (err e) h = elim (Bool-cases (has_message e)) [
  | inl said ↦ rw said tt
  | inr silent ↦ rw silent tt
]

pub invoke-Promises :
    {S A B : Type 0} (P : B → Type 0) (policy : StageStoragePolicy) (c : Callable S A B)
    (input : Value A)
    → ((s : S) → Promises P (c.call s input).0)
    → Promises P (invoke policy c input).0
unfolding invoke
invoke-Promises P construct_stages_per_run c input h = h c.initial
invoke-Promises P store_stages_in_engine c input h = h c.object

wrap_success-OkAll :
    {A : Type 0} (P : Value A → Type 0) (homogeneous : Bool) (i : ℕ) (r : Result A Error)
    → OkAll (λ a. P (selected_branch_success homogeneous i a)) r
    → OkAll P (wrap_success homogeneous i r)
wrap_success-OkAll P homogeneous i (ok a) h = h
wrap_success-OkAll P homogeneous i (err e) h = tt

module _ {S A : Type 0} (P : Value A → Type 0) (homogeneous : Bool) (branch_id : StageId)
    (input : Value A) where
  -- Whatever the stage of a case gives, it has the property once it is the value of the branch.
  abbrev pub CaseYields : ℕ → Case S A → Type 0
  CaseYields i c =
      (s : S) → Promises (λ a. P (selected_branch_success homogeneous i a)) (c.stage.call s input).0

  abbrev pub CasesYield : ℕ → List (Case S A) → Type 0
  CasesYield i [] = Unit
  CasesYield i (c ∷ cases) = CaseYields i c × CasesYield (suc i) cases

  run_branch_stage-OkAll :
      (policy : StageStoragePolicy) (id : StageId) (i : ℕ) (c : Case S A) (s : Sink)
      → CaseYields i c
      → OkAll P (run_branch_stage policy homogeneous id c.stage input i s).0.0
  unfolding run_branch_stage ◌>>=◌ pure
  run_branch_stage-OkAll policy id i c s h = wrap_success-OkAll P homogeneous i _ (
      settle-OkAll (λ a. P (selected_branch_success homogeneous i a)) id _ _
        (invoke-Promises (λ a. P (selected_branch_success homogeneous i a)) policy c.stage input h))

  decide_case-OkAll :
      (id : StageId) (i : ℕ) (c : Case S A) (progress : Progress A) (r : Result Bool Error)
      (s : Sink)
      → CaseYields i c
      → OkAll P progress.output
      → OkAll P (decide_case homogeneous branch_id id input i c progress r s).0.output
  unfolding decide_case ◌>>=◌ pure
  decide_case-OkAll id i c progress (err e) s h k = tt
  decide_case-OkAll id i c progress (ok true) s h k =
      run_branch_stage-OkAll construct_stages_per_run _ i c _ h
  decide_case-OkAll id i c progress (ok false) s h k = k

  process-OkAll :
      (i : ℕ) (c : Case S A) (progress : Progress A) (s : Sink)
      → CaseYields i c
      → OkAll P progress.output
      → OkAll P (process homogeneous branch_id input i c progress s).0.output
  unfolding process try_case ◌>>=◌ pure
  process-OkAll i c progress s h k = elim (Bool-cases (progress.matched || progress.has_error)) [
    | inl over ↦ rw over k
    | inr open_yet ↦ rw open_yet (decide_case-OkAll _ i c progress _ _ h k)
  ]

  process_cases-OkAll :
      (i : ℕ) (cases : List (Case S A)) (progress : Progress A) (s : Sink)
      → CasesYield i cases
      → OkAll P progress.output
      → OkAll P (process_cases homogeneous branch_id input i cases progress s).0.output
  unfolding process_cases ◌>>=◌ pure
  process_cases-OkAll i [] progress s h k = k
  process_cases-OkAll i (c ∷ cases) progress s (h, hs) k =
      process_cases-OkAll (suc i) cases _ _ hs (process-OkAll i c progress s h k)

  decide_stored_case-OkAll :
      (id : StageId) (i : ℕ) (c : Case S A) (others : List (Case S A))
      (next : Run (Result (Value A) Error × List (Case S A))) (r : Result Bool Error) (s : Sink)
      → CaseYields i c
      → ((s' : Sink) → OkAll P (next s').0.0)
      → OkAll P (decide_stored_case homogeneous branch_id id input i c others next r s).0.0
  unfolding decide_stored_case ◌>>=◌ pure
  decide_stored_case-OkAll id i c others next (err e) s h k = tt
  decide_stored_case-OkAll id i c others next (ok true) s h k =
      run_branch_stage-OkAll store_stages_in_engine _ i c _ h
  decide_stored_case-OkAll id i c others next (ok false) s h k = k _

  stored_cases-OkAll :
      (i : ℕ) (cases : List (Case S A)) (s : Sink)
      → CasesYield i cases
      → OkAll P (run_selected_branch_cases_with_storage homogeneous branch_id input i cases s).0.0
  unfolding run_selected_branch_cases_with_storage unselected_branch_error ◌>>=◌ pure
  stored_cases-OkAll i [] s h = tt
  stored_cases-OkAll i (c ∷ cases) s (h, hs) =
      decide_stored_case-OkAll _ i _ cases _ _ _ h (λ s'. stored_cases-OkAll (suc i) cases s' hs)

module _ {S A : Type 0} (P : Value A → Type 0) (branch_id : StageId) (b : BranchNode S A)
    (input : Value A) where
  pub run_selected_branch-OkAll :
      (s : Sink)
      → CasesYield P b.homogeneous branch_id input 0 b.cases
      → OkAll P (run_selected_branch branch_id b input s).0
  unfolding run_selected_branch start_progress unselected_branch_error ◌>>=◌ pure
  run_selected_branch-OkAll s h =
      mark_branch_error-OkAll P _ _
        (process_cases-OkAll P b.homogeneous branch_id input 0 b.cases _ s h tt)

  pub run_stored_branch-OkAll :
      (s : Sink)
      → CasesYield P b.homogeneous branch_id input 0 b.cases
      → OkAll P (run_stored_branch branch_id b input s).0.0
  unfolding run_stored_branch ◌>>=◌ pure
  run_stored_branch-OkAll s h =
      mark_branch_error-OkAll P _ _
        (stored_cases-OkAll P b.homogeneous branch_id input 0 b.cases s h)
