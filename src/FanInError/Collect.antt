-- ===== src/FanInError/Collect.antt =====
-- What include/pb/runtime/fan_in_error.hpp collects: the failed slots, in their order, as many as the
-- fan-in told its observer.
use pipeline_c.Prelude.{
  ℕ, ◌≡◌, refl, ap, ◌∙◌, sym, Bool, true, false, List, [], ◌∷◌, ◌++◌, append_assoc, append-nil, map,
  length, count_if, if◌then◌else◌, arith, Bool-cases, inl, inr,
}
use pipeline_c.Error.{StageId, Error}
use pipeline_c.Result.{Result, ok, err}
use pipeline_c.Observer.{Event, on_fan_in_completed, Sink}
use pipeline_c.Observer.Emits.{deliver}
use pipeline_c.Stage.{
  FanInCaseResult, Value, atom, variant, results, BranchNode, StageStoragePolicy,
}
use pipeline_c.Sequential.FanIn.{run_fan_in_branch}
use pipeline_c.Sequential.Settling.{is_failed, is_completed}
use pipeline_c.Sequential.Slots.{case_slots, picked_count}
use pipeline_c.Sequential.Slots.Spec.{run_fan_in_branch-slots, run_fan_in_branch-tally}
use pipeline_c.FanInError.{
  FanInErrorEnvelope, push, case_error, collect_fan_in_case, collect_from, collect_fan_in_errors,
}

-- The elements that pass a test, in their order.
abbrev pub keep_if {ℓ} : {A : Type ℓ} → (A → Bool) → List A → List A
keep_if p [] = []
keep_if p (x ∷ xs) = if p x then x ∷ keep_if p xs else keep_if p xs

add_case :
    {A : Type 0} (b : Bool) (slot : FanInCaseResult A) (slots : List (FanInCaseResult A))
    (envelope : FanInErrorEnvelope)
    → (if b then envelope ++ case_error slot ∷ [] else envelope) ++ map case_error slots
      ≡ envelope ++ map case_error (if b then slot ∷ slots else slots)
add_case true slot slots envelope =
    append_assoc envelope (case_error slot ∷ []) (map case_error slots)
add_case false slot slots envelope = refl

collect_from-eq :
    {A : Type 0} (slots : List (FanInCaseResult A)) (envelope : FanInErrorEnvelope)
    → collect_from slots envelope ≡ envelope ++ map case_error (keep_if is_failed slots)
unfolding collect_from collect_fan_in_case push
collect_from-eq [] envelope = sym (append-nil envelope)
collect_from-eq (slot ∷ slots) envelope =
    collect_from-eq slots (collect_fan_in_case slot envelope)
    ∙ add_case (is_failed slot) slot (keep_if is_failed slots) envelope

-- The envelope of a fan-in holds one record for each slot that has failed, in the order of the
-- cases, and none for the others.
pub collect_fan_in_errors-eq :
    {A : Type 0} (aggregate : List (FanInCaseResult A))
    → collect_fan_in_errors aggregate ≡ map case_error (keep_if is_failed aggregate)
unfolding collect_fan_in_errors
collect_fan_in_errors-eq aggregate = collect_from-eq aggregate []

length-keep_if :
    {A B : Type 0} (f : A → B) (p : A → Bool) (xs : List A)
    → length (map f (keep_if p xs)) ≡ count_if p xs
length-keep_if f p [] = refl
length-keep_if f p (x ∷ xs) = elim (Bool-cases (p x)) [
  | inl e ↦ rw e (omega (arith, length-keep_if f p xs))
  | inr e ↦ rw e (omega (arith, length-keep_if f p xs))
]

abbrev slots_of :
    {A : Type 0} → List (FanInCaseResult A) → Result (Value A) Error → List (FanInCaseResult A)
slots_of default (ok (results slots)) = slots
slots_of default (ok (atom a)) = default
slots_of default (ok (variant i a)) = default
slots_of default (err e) = default

-- The records that are collected from the value of a fan-in are as many as the failed cases that its
-- last event counts.
pub length-collect_fan_in_errors :
    {S A : Type 0} (policy : StageStoragePolicy) (branch_id : StageId) (input : Value A)
    (b : BranchNode S A) (s : Sink) (slots : List (FanInCaseResult A))
    → (run_fan_in_branch policy branch_id b input s).0.0 ≡ ok (results slots)
    → (events : List Event) × (selected_count : ℕ) × (completed_count : ℕ) × ((run_fan_in_branch
          policy branch_id b input s).1
        ≡ deliver
            (events
              ++ on_fan_in_completed branch_id selected_count completed_count
                  (length (collect_fan_in_errors slots))
                ∷ [])
            s)
length-collect_fan_in_errors policy branch_id input b s slots h =
    let expected = case_slots policy branch_id input 0 b.cases in
    let same : slots ≡ expected =
      ap (slots_of []) (sym h ∙ run_fan_in_branch-slots policy branch_id input b s) in
    let (events, told) = run_fan_in_branch-tally policy branch_id input b s in
    let count : count_if is_failed expected ≡ length (collect_fan_in_errors slots) = sym (
      ap (λ x. length (collect_fan_in_errors x)) same
      ∙ ap length (collect_fan_in_errors-eq expected)
      ∙ length-keep_if case_error is_failed expected) in
    (
      events,
      picked_count policy branch_id input 0 b.cases,
      count_if is_completed expected,
      told
          ∙ ap
              (λ n.
                deliver
                  (events
                    ++ on_fan_in_completed branch_id (picked_count policy branch_id input 0 b.cases)
                        (count_if is_completed expected) n
                      ∷ [])
                  s)
              count,
    )
