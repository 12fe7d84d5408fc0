-- ===== src/Builder.antt =====
-- The pipeline builder of include/pb/core/pipeline_state.hpp: the compile-time checks of each step,
-- as functions that give none where an assertion fails. The types of stages are known by their
-- member types; a type that is no stage has none, and is refused before.
pub mod Reaches
pub mod Checks
pub mod Chain
pub mod Values
pub mod Cases
pub mod Sound
mod Tests
use pipeline_c.Prelude.{
  Bool, true, false, ◌&&◌, ◌||◌, Option, none, some, List, [], ◌∷◌, ◌++◌, map, if◌then◌else◌,
  and_then, Text,
}
use pipeline_c.CppType.{
  CppType, class, fan_in_results, type_list, TypeList, nil, cons, same_as,
  branch_output_type_or_variant, is_homogeneous, is_type_list, invocable_for_output_types,
}
use pipeline_c.Stage.{
  Callable, Case, BranchNode, Node, stage, type_list_join, selected_branch, fan_in_branch,
}

-- A stage type: its member types, what it can be called with, and its code.
pub record StageDecl (S A : Type 0) : Type 0 where
  pub input_type : CppType
  pub output_type : CppType
  pub is_invocable : CppType → Bool
  pub is_const_invocable : Bool
  pub code : Callable S A A

-- `branch_case<Predicate, BranchStage>`
pub record CaseDecl (S A : Type 0) : Type 0 where
  pub predicate_input : CppType
  pub has_bool_output : Bool
  pub is_const_predicate : Bool
  pub predicate : Callable S A Bool
  pub target : StageDecl S A
  pub case_label : Text

-- An element of a pipeline's list of stages.
pub data StageType (S A : Type 0) : Type 0 where
  plain_stage : StageDecl S A → StageType S A
  selected_branch_node : List (CaseDecl S A) → StageType S A
  fan_in_branch_node : List (CaseDecl S A) → StageType S A

-- `pipeline_state`, without the policies
pub record PipelineState (S A : Type 0) : Type 0 where
  pub input_type : CppType
  pub current_type : CppType
  pub stages : List (StageType S A)

-- `pipeline`
pub record Pipeline (S A : Type 0) : Type 0 where
  pub input_type : CppType
  pub output_type : CppType
  pub stages : List (StageType S A)

module _ {S A : Type 0} where
  unfoldable pub output_types : List (CaseDecl S A) → TypeList
  output_types [] = nil
  output_types (c ∷ cases) = cons c.target.output_type (output_types cases)

  -- the assertions of `branch_case`
  unfoldable pub is_valid_case : CaseDecl S A → Bool
  is_valid_case c = c.has_bool_output && same_as c.predicate_input c.target.input_type

  -- `branch_cases_same_input_impl`
  unfoldable pub same_input : CppType → List (CaseDecl S A) → Bool
  same_input t [] = true
  same_input t (c ∷ cases) = same_as t c.predicate_input && same_input t cases

  unfoldable pub are_valid_cases : List (CaseDecl S A) → Bool
  are_valid_cases [] = true
  are_valid_cases (c ∷ cases) = is_valid_case c && are_valid_cases cases

  unfoldable pub all_const_predicates : List (CaseDecl S A) → Bool
  all_const_predicates [] = true
  all_const_predicates (c ∷ cases) = c.is_const_predicate && all_const_predicates cases

  unfoldable pub all_const_stages : List (CaseDecl S A) → Bool
  all_const_stages [] = true
  all_const_stages (c ∷ cases) = c.target.is_const_invocable && all_const_stages cases

  unfoldable pub from : CppType → PipelineState S A
  from input = record { input_type = input; current_type = input; stages = [] }

  -- `append_stage`
  unfoldable pub append_stage : PipelineState S A → StageDecl S A → Option (PipelineState S A)
  append_stage state decl =
      if same_as state.current_type decl.input_type
      then some (record state {
        current_type = decl.output_type;
        stages = state.stages ++ plain_stage decl ∷ [];
      })
      else none

  unfoldable pub append_stages :
      PipelineState S A → List (StageDecl S A) → Option (PipelineState S A)
  append_stages state [] = some state
  append_stages state (decl ∷ decls) =
      and_then (append_stage state decl) (λ next. append_stages next decls)

  -- `branch_stage::output_type`, where the assertions of the branch hold
  unfoldable pub push_branch : PipelineState S A → List (CaseDecl S A) → PipelineState S A
  push_branch state cases = record state {
    current_type = branch_output_type_or_variant (output_types cases);
    stages = state.stages ++ selected_branch_node cases ∷ [];
  }

  -- The stages of a pipeline end in a selected branch.
  unfoldable pub last_branch : List (StageType S A) → Option (List (CaseDecl S A))
  last_branch [] = none
  last_branch (plain_stage decl ∷ []) = none
  last_branch (selected_branch_node cases ∷ []) = some cases
  last_branch (fan_in_branch_node cases ∷ []) = none
  last_branch (x ∷ y ∷ stages) = last_branch (y ∷ stages)

  -- `meta::replace_back_t`
  unfoldable pub replace_back : List (StageType S A) → StageType S A → List (StageType S A)
  replace_back [] z = []
  replace_back (x ∷ []) z = z ∷ []
  replace_back (x ∷ y ∷ stages) z = x ∷ replace_back (y ∷ stages) z

  -- `join_stage_accepts_outputs`
  unfoldable pub join_stage_accepts_outputs : TypeList → StageDecl S A → Bool
  join_stage_accepts_outputs outputs decl =
      same_as decl.input_type (branch_output_type_or_variant outputs)
      || (same_as decl.input_type (type_list outputs)
          && invocable_for_output_types decl.is_invocable outputs)

  unfoldable pub join_branch :
      PipelineState S A → StageDecl S A → Option (List (CaseDecl S A)) → Option (PipelineState S A)
  join_branch state decl none = none
  join_branch state decl (some cases) =
      if join_stage_accepts_outputs (output_types cases) decl
      then some (record state {
        current_type = decl.output_type;
        stages = state.stages ++ plain_stage decl ∷ [];
      })
      else none

  -- `append_join`
  unfoldable pub append_join : PipelineState S A → StageDecl S A → Option (PipelineState S A)
  append_join state decl = join_branch state decl (last_branch state.stages)

  -- `finalize_pipeline`
  unfoldable pub finalize_pipeline : PipelineState S A → CppType → Option (Pipeline S A)
  finalize_pipeline state output =
      if same_as state.current_type output
      then some
          (record { input_type = state.input_type; output_type = output; stages = state.stages })
      else none

  abbrev pub case_of : CaseDecl S A → Case S A
  case_of c = record { predicate = c.predicate; stage = c.target.code }

  abbrev pub branch_of : List (CaseDecl S A) → BranchNode S A
  branch_of cases = record {
    homogeneous = is_homogeneous (output_types cases);
    cases = map case_of cases;
  }

  -- How the engine's `invoke_stage` takes a stage type.
  unfoldable pub node_of : StageType S A → Node S A
  node_of (plain_stage decl) =
      if is_type_list decl.input_type then type_list_join decl.code else stage decl.code
  node_of (selected_branch_node cases) = selected_branch (branch_of cases)
  node_of (fan_in_branch_node cases) = fan_in_branch (branch_of cases)

  -- Whether a type can be copied is a property of the type.
  module _ (copy_constructible : CppType → Bool) where
    -- `append_branch`, with the assertions of `branch_outputs` and `selected_branch_node`
    unfoldable pub append_branch :
        PipelineState S A → List (CaseDecl S A) → Option (PipelineState S A)
    append_branch state [] = none
    append_branch state (c ∷ cases) =
        if same_as state.current_type c.predicate_input
          && (are_valid_cases (c ∷ cases)
              && (same_input c.predicate_input cases
                  && (copy_constructible c.predicate_input || all_const_predicates (c ∷ cases))))
        then some (push_branch state (c ∷ cases))
        else none

    -- the assertions of `fan_in_branch_node`, for the input type of its cases
    unfoldable pub can_fan_in : List (CaseDecl S A) → Bool
    can_fan_in [] = false
    can_fan_in (c ∷ cases) =
        (copy_constructible c.predicate_input || all_const_stages (c ∷ cases))
        && all_const_predicates (c ∷ cases)

    unfoldable pub fan_in_cases :
        PipelineState S A
        → StageDecl S A
        → Option (List (CaseDecl S A))
        → Option (PipelineState S A)
    fan_in_cases state decl none = none
    fan_in_cases state decl (some cases) =
        if can_fan_in cases && same_as decl.input_type (fan_in_results (output_types cases))
        then some (record state {
          current_type = decl.output_type;
          stages = replace_back state.stages (fan_in_branch_node cases) ++ plain_stage decl ∷ [];
        })
        else none

    -- `append_fan_in`
    unfoldable pub append_fan_in : PipelineState S A → StageDecl S A → Option (PipelineState S A)
    append_fan_in state decl = fan_in_cases state decl (last_branch state.stages)
