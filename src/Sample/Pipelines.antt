-- ===== src/Sample/Pipelines.antt =====
-- A stage and a fan-in behind it, for the tests of the descriptors and the graphs that are made of them
-- (include/pb/core/pipeline_state.hpp).
use pipeline_c.Prelude.{ℕ, true, List, [], ◌∷◌, Text, codes}
use pipeline_c.CppType.{CppType, class, same_as}
use pipeline_c.Sample.{always, is_small, double}
use pipeline_c.Builder.{StageDecl, CaseDecl, StageType, plain_stage, fan_in_branch_node}

abbrev pub int_name : CppType → Text
int_name t = codes "int"

abbrev pub doubling : StageDecl ℕ ℕ
doubling = record {
  input_type = class 0;
  output_type = class 0;
  is_invocable = λ t. same_as t (class 0);
  is_const_invocable = true;
  code = double;
}

abbrev pub small_case : CaseDecl ℕ ℕ
small_case = record {
  predicate_input = class 0;
  has_bool_output = true;
  is_const_predicate = true;
  predicate = is_small;
  target = doubling;
  case_label = codes "small";
}

abbrev pub other_case : CaseDecl ℕ ℕ
other_case = record small_case { predicate = always; case_label = [] }

abbrev pub two_stages : List (StageType ℕ ℕ)
two_stages = plain_stage doubling ∷ fan_in_branch_node (small_case ∷ other_case ∷ []) ∷ []
