-- ===== src/Descriptor/Records.antt =====
-- The records of include/pb/core/describe.hpp and include/pb/runtime/descriptor.hpp, and those of the
-- first that a pipeline has.
use pipeline_c.Prelude.{ℕ, suc, ◌+◌, List, [], ◌∷◌, Text}
use pipeline_c.Stage.{node_key, node_name}
use pipeline_c.Builder.{StageType, node_of}

-- core `stage_record`
pub record StageRecord : Type 0 where
  pub index : ℕ
  pub key : Text
  pub name : Text

-- core `edge_record`
pub record EdgeRecord : Type 0 where
  pub index : ℕ
  pub from_stage_index : ℕ
  pub to_stage_index : ℕ
  pub from_key : Text
  pub from_name : Text
  pub to_key : Text
  pub to_name : Text

pub data DescriptorTopology : Type 0 where
  linear branch fan_in : DescriptorTopology

pub record DescriptorStageRecord : Type 0 where
  pub index : ℕ
  pub key : Text
  pub name : Text
  pub input_type_name : Text
  pub output_type_name : Text
  pub topology : DescriptorTopology

pub record DescriptorBranchCaseRecord : Type 0 where
  pub branch_stage_index : ℕ
  pub case_index : ℕ
  pub case_id : Text
  pub case_key : Text
  pub case_label : Text
  pub predicate_node_id : Text
  pub stage_node_id : Text
  pub predicate_key : Text
  pub predicate_name : Text
  pub stage_key : Text
  pub stage_name : Text
  pub input_type_name : Text
  pub output_type_name : Text

pub record DescriptorEdgeRecord : Type 0 where
  pub index : ℕ
  pub from_stage_index : ℕ
  pub to_stage_index : ℕ
  pub from_key : Text
  pub from_name : Text
  pub to_key : Text
  pub to_name : Text
  pub label : Text

-- `descriptor_view`; its counts are the lengths.
pub record DescriptorView : Type 0 where
  pub topology : DescriptorTopology
  pub stages : List DescriptorStageRecord
  pub edges : List DescriptorEdgeRecord
  pub branch_cases : List DescriptorBranchCaseRecord

unfoldable pub to_runtime_edge_record : EdgeRecord → Text → DescriptorEdgeRecord
to_runtime_edge_record source label = record {
  index = source.index;
  from_stage_index = source.from_stage_index;
  to_stage_index = source.to_stage_index;
  from_key = source.from_key;
  from_name = source.from_name;
  to_key = source.to_key;
  to_name = source.to_name;
  label = label;
}

unfoldable pub fill_edge_records : List EdgeRecord → List DescriptorEdgeRecord
fill_edge_records [] = []
fill_edge_records (edge ∷ edges) = to_runtime_edge_record edge [] ∷ fill_edge_records edges

abbrev pub empty_case_record : DescriptorBranchCaseRecord
empty_case_record = record {
  branch_stage_index = 0;
  case_index = 0;
  case_id = [];
  case_key = [];
  case_label = [];
  predicate_node_id = [];
  stage_node_id = [];
  predicate_key = [];
  predicate_name = [];
  stage_key = [];
  stage_name = [];
  input_type_name = [];
  output_type_name = [];
}

module _ {S A : Type 0} where
  -- core `stage_records`, from the number of a stage on
  unfoldable pub stage_records : (index : ℕ) → List (StageType S A) → List StageRecord
  stage_records index [] = []
  stage_records index (s ∷ stages) =
      record { index = index; key = node_key (node_of s); name = node_name (node_of s) }
      ∷ stage_records (suc index) stages

  -- core `edge_records`, from the number of a stage on
  unfoldable pub edge_records : (index : ℕ) → List (StageType S A) → List EdgeRecord
  edge_records index [] = []
  edge_records index (s ∷ []) = []
  edge_records index (s ∷ t ∷ stages) =
      record {
        index = index;
        from_stage_index = index;
        to_stage_index = index + 1;
        from_key = node_key (node_of s);
        from_name = node_name (node_of s);
        to_key = node_key (node_of t);
        to_name = node_name (node_of t);
      }
      ∷ edge_records (suc index) (t ∷ stages)
