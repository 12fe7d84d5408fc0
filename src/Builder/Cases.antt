-- ===== src/Builder/Cases.antt =====
-- The cases of a branch of include/pb/core/pipeline_state.hpp at run time: what they are handed and
-- what they give.
use pipeline_c.Prelude.{
  ℕ, suc, ◌≡◌, refl, subst, some-injective, Bool, true, false, some, List, [], ◌∷◌, All, map,
}
use mathlib.Core.Option.{none-ne-some}
use pipeline_c.Error.{StageId, Error}
use pipeline_c.Result.{Result, ok, err}
use pipeline_c.Stage.{Value, StageStoragePolicy}
use pipeline_c.Sequential.Slots.{fill, decided_slot, case_slots}
use pipeline_c.Sequential.Yields.{OkAll, verdict-OkAll, Promises-map, invoke-Promises, CasesYield}
use pipeline_c.CppType.{CppType, TypeList, cons, nth, is_homogeneous}
use pipeline_c.Builder.{CaseDecl, output_types, case_of}
use pipeline_c.Builder.Reaches.{HasInput}
use pipeline_c.Builder.Values.{IsObject, SlotsHave, HasType, IsOutput, success-IsOutput, Keeps}

fill-value :
    {A : Type 0} (P : A → Type 0) (i : ℕ) (r : Result A Error) (a : A)
    → OkAll P r
    → (fill i r).value ≡ some a
    → P a
fill-value P i (ok b) a h e = subst P (some-injective _ _ e) h
fill-value P i (err x) a h e = absurd (none-ne-some a e)

module _ {S A : Type 0} (IsOf : ℕ → A → Type 0) where
  -- The cases' output types, from an index on.
  abbrev pub Listed : TypeList → ℕ → List (CaseDecl S A) → Type 0
  Listed ts i [] = Unit
  Listed ts i (c ∷ cases) = (nth ts i ≡ some c.target.output_type) × Listed ts (suc i) cases

  Listed-cons :
      (t : CppType) (ts : TypeList) (i : ℕ) (cases : List (CaseDecl S A))
      → Listed ts i cases
      → Listed (cons t ts) (suc i) cases
  Listed-cons t ts i [] h = tt
  Listed-cons t ts i (c ∷ cases) (h, hs) = (h, Listed-cons t ts (suc i) cases hs)

  pub output_types-Listed : (cases : List (CaseDecl S A)) → Listed (output_types cases) 0 cases
  unfolding output_types
  output_types-Listed [] = tt
  output_types-Listed (c ∷ cases) = (
    refl,
    Listed-cons c.target.output_type (output_types cases) 0 cases (output_types-Listed cases),
  )

  pub cases-yield :
      (ts : TypeList) (branch_id : StageId) (t : CppType) (v : Value A) (i : ℕ)
      (cases : List (CaseDecl S A))
      → Listed ts i cases
      → All (HasInput t) cases
      → All (λ c. Keeps IsOf c.target) cases
      → HasType IsOf v t
      → CasesYield (IsOutput IsOf ts) (is_homogeneous ts) branch_id v i (map case_of cases)
  cases-yield ts branch_id t v i [] at inputs kept h = tt
  cases-yield ts branch_id t v i (c ∷ cases) (at, ats) (input, inputs) (keep, kept) h = (
    (λ s.
        Promises-map (IsObject IsOf c.target.output_type) _ _
          (λ a typed. success-IsOutput IsOf ts i c.target.output_type a at typed)
          (keep s v (subst (HasType IsOf v) input h))),
    cases-yield ts branch_id t v (suc i) cases ats inputs kept h,
  )

  decided_slot-typed :
      (policy : StageStoragePolicy) (branch_id : StageId) (t : CppType) (v : Value A) (i : ℕ)
      (c : CaseDecl S A) (r : Result Bool Error)
      → t ≡ c.target.input_type
      → Keeps IsOf c.target
      → HasType IsOf v t
      → (a : A) → (decided_slot policy branch_id v i (case_of c) r).value ≡ some a
      → IsObject IsOf c.target.output_type a
  decided_slot-typed policy branch_id t v i c (err x) input keep h a e = absurd (none-ne-some a e)
  decided_slot-typed policy branch_id t v i c (ok true) input keep h a e =
      fill-value (IsObject IsOf c.target.output_type) i _ a
        (verdict-OkAll (IsObject IsOf c.target.output_type) _ _ (
          invoke-Promises (IsObject IsOf c.target.output_type) policy c.target.code v
            (λ s. keep s v (subst (HasType IsOf v) input h))))
        e
  decided_slot-typed policy branch_id t v i c (ok false) input keep h a e =
      absurd (none-ne-some a e)

  pub case_slots-SlotsHave :
      (policy : StageStoragePolicy) (branch_id : StageId) (t : CppType) (v : Value A) (i : ℕ)
      (cases : List (CaseDecl S A))
      → All (HasInput t) cases
      → All (λ c. Keeps IsOf c.target) cases
      → HasType IsOf v t
      → SlotsHave IsOf (case_slots policy branch_id v i (map case_of cases)) (output_types cases)
  unfolding output_types
  case_slots-SlotsHave policy branch_id t v i [] inputs kept h = tt
  case_slots-SlotsHave policy branch_id t v i (c ∷ cases) (input, inputs) (keep, kept) h = (
    decided_slot-typed policy branch_id t v i c _ input keep h,
    case_slots-SlotsHave policy branch_id t v (suc i) cases inputs kept h,
  )
