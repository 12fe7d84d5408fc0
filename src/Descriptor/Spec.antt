-- ===== src/Descriptor/Spec.antt =====
-- What a descriptor holds (include/pb/runtime/descriptor.hpp), described from the stages themselves.
use pipeline_c.Prelude.{ℕ, suc, List, [], ◌∷◌, ◌++◌, Text}
use pipeline_c.CppType.{CppType}
use pipeline_c.Builder.{CaseDecl, StageType, plain_stage, selected_branch_node, fan_in_branch_node}
use pipeline_c.Descriptor.Records.{
  DescriptorStageRecord, DescriptorEdgeRecord, DescriptorBranchCaseRecord,
}
use pipeline_c.Descriptor.{case_record_of}
use pipeline_c.Descriptor.Room.{identity_of}

module _ {S A : Type 0} where
  abbrev pub node_cases : StageType S A → List (CaseDecl S A)
  node_cases (plain_stage decl) = []
  node_cases (selected_branch_node cases) = cases
  node_cases (fan_in_branch_node cases) = cases

module _ {S A : Type 0} (type_name : CppType → Text) where
  abbrev pub node_records :
      (index case_index : ℕ) → List (CaseDecl S A) → List DescriptorBranchCaseRecord
  node_records index case_index [] = []
  node_records index case_index (c ∷ cases) =
      case_record_of type_name index case_index c (identity_of index case_index)
      ∷ node_records index (suc case_index) cases

  -- The cases of all branches, in the order of the stages.
  abbrev pub all_records : (index : ℕ) → List (StageType S A) → List DescriptorBranchCaseRecord
  all_records index [] = []
  all_records index (s ∷ stages) =
      node_records index 0 (node_cases s) ++ all_records (suc index) stages

-- An edge from each stage to the one behind it.
abbrev pub edges_between : List DescriptorStageRecord → List DescriptorEdgeRecord
edges_between [] = []
edges_between (s ∷ []) = []
edges_between (s ∷ t ∷ stages) =
    record {
      index = s.index;
      from_stage_index = s.index;
      to_stage_index = t.index;
      from_key = s.key;
      from_name = s.name;
      to_key = t.key;
      to_name = t.name;
      label = [];
    }
    ∷ edges_between (t ∷ stages)
