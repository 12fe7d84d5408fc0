-- ===== src/Builder/Values.antt =====
-- The run-time values of the types that the builder of include/pb/core/pipeline_state.hpp checks, and
-- what a stage type promises of its calls.
use pipeline_c.Prelude.{ℕ, ◌≡◌, sym, subst, true, some, List, [], ◌∷◌, All, Bool-cases, inl, inr}
use pipeline_c.CppType.{
  CppType, class, std_variant, fan_in_results, type_list, TypeList, nil, cons, nth,
  branch_output_type_or_variant, is_homogeneous, is_type_list,
}
use pipeline_c.CppType.Same.{homogeneous-output, heterogeneous-output}
use pipeline_c.Stage.{FanInCaseResult, Value, atom, variant, results}
use pipeline_c.Sequential.Branch.{selected_branch_success}
use pipeline_c.Sequential.Yields.{Promises}
use pipeline_c.Builder.{StageDecl, StageType, plain_stage, selected_branch_node, fan_in_branch_node}
use pipeline_c.Builder.Reaches.{Shape, of, branched, type_of}

-- `IsOf` tells which objects are of which class. The objects that stages return are of classes: a
-- variant or the results of a fan-in come from a branch, and a `type_list` has no objects.
module _ {A : Type 0} (IsOf : ℕ → A → Type 0) where
  abbrev pub IsObject : CppType → A → Type 0
  IsObject (class n) a = IsOf n a
  IsObject (std_variant ts) a = ⊥
  IsObject (fan_in_results ts) a = ⊥
  IsObject (type_list ts) a = ⊥

  -- The value of each slot of a fan-in, if it has one, is of the output type of its case.
  abbrev pub SlotsHave : List (FanInCaseResult A) → TypeList → Type 0
  SlotsHave [] nil = Unit
  SlotsHave [] (cons t ts) = ⊥
  SlotsHave (slot ∷ slots) nil = ⊥
  SlotsHave (slot ∷ slots) (cons t ts) =
      ((a : A) → slot.value ≡ some a → IsObject t a) × SlotsHave slots ts

  -- A variant holds an object of the type at its index.
  abbrev pub HasType : Value A → CppType → Type 0
  HasType (atom a) t = IsObject t a
  HasType (variant i a) t =
      (ts : TypeList) × (u : CppType) × (t ≡ std_variant ts) × (nth ts i ≡ some u) × IsObject u a
  HasType (results slots) t = (ts : TypeList) × (t ≡ fan_in_results ts) × SlotsHave slots ts

  -- What a selected branch with these outputs gives: the output of a case, as it is if all outputs
  -- are of one type, and as an alternative of a variant if not.
  abbrev pub IsOutput : TypeList → Value A → Type 0
  IsOutput ts (atom a) =
      (i : ℕ) × (u : CppType) × (nth ts i ≡ some u)
      × (branch_output_type_or_variant ts ≡ u)
      × IsObject u a
  IsOutput ts (variant i a) =
      (u : CppType) × (nth ts i ≡ some u)
      × (branch_output_type_or_variant ts ≡ std_variant ts)
      × IsObject u a
  IsOutput ts (results slots) = ⊥

  abbrev pub HasShape : Shape → Value A → Type 0
  HasShape (of t) v = HasType v t
  HasShape (branched ts) v = IsOutput ts v

  pub IsOutput-HasType :
      (ts : TypeList) (v : Value A) → IsOutput ts v → HasType v (branch_output_type_or_variant ts)
  IsOutput-HasType ts (atom a) (i, u, at, e, h) = subst (λ t. IsObject t a) (sym e) h
  IsOutput-HasType ts (variant i a) (u, at, e, h) = (ts, u, e, at, h)
  IsOutput-HasType ts (results slots) h = elim h [ ]

  -- An output of a case becomes an output of the branch.
  pub success-IsOutput :
      (ts : TypeList) (i : ℕ) (u : CppType) (a : A)
      → nth ts i ≡ some u
      → IsObject u a
      → IsOutput ts (selected_branch_success (is_homogeneous ts) i a)
  unfolding selected_branch_success
  success-IsOutput ts i u a at h = elim (Bool-cases (is_homogeneous ts)) [
    | inl one ↦ rw one (i, u, at, homogeneous-output ts i u one at, h)
    | inr many ↦ rw many (u, at, heterogeneous-output ts many, h)
  ]

  -- No value has a `type_list` for its type.
  pub no_type_list : (t : CppType) (v : Value A) → is_type_list t ≡ true → HasType v t → ⊥
  unfolding is_type_list
  no_type_list (class n) v listed h = cc
  no_type_list (std_variant ts) v listed h = cc
  no_type_list (fan_in_results ts) v listed h = cc
  no_type_list (type_list ts) (atom a) listed h = h
  no_type_list (type_list ts) (variant i a) listed (us, u, e, at, h) = cc
  no_type_list (type_list ts) (results slots) listed (us, e, h) = cc

  pub HasShape-type : (sh : Shape) (v : Value A) → HasShape sh v → HasType v (type_of sh)
  HasShape-type (of t) v h = h
  HasShape-type (branched ts) v h = IsOutput-HasType ts v h

  module _ {S : Type 0} where
    -- Each call of a stage with a value of its input type gives, if anything, an object of its
    -- output type, in whatever state the stage is.
    abbrev pub Keeps : StageDecl S A → Type 0
    Keeps decl =
        (s : S) (v : Value A)
        → HasType v decl.input_type
        → Promises (IsObject decl.output_type) (decl.code.call s v).0

    -- The same of each call with an object of a type that the stage can be called with.
    abbrev pub KeepsEach : StageDecl S A → Type 0
    KeepsEach decl =
        (s : S) (t : CppType) (a : A)
        → decl.is_invocable t ≡ true
        → IsObject t a
        → Promises (IsObject decl.output_type) (decl.code.call s (atom a)).0

    -- What the stages of a pipeline promise.
    abbrev pub Promised : StageType S A → Type 0
    Promised (plain_stage decl) = Keeps decl × KeepsEach decl
    Promised (selected_branch_node cases) = All (λ c. Keeps c.target) cases
    Promised (fan_in_branch_node cases) = All (λ c. Keeps c.target) cases
