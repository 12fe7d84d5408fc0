-- ===== src/Descriptor.antt =====
-- The descriptors of include/pb/runtime/descriptor.hpp, with the records of include/pb/core/describe.hpp
-- that they are made of. The name of a type is the compiler's.
pub mod Buffer
pub mod Records
pub mod Room
pub mod Spec
pub mod Filled
pub mod Ids
mod Tests
use pipeline_c.Prelude.{
  ℕ, zero, suc, ◌+◌, Bool, true, false, Option, some, List, [], ◌∷◌, codes, Text, length,
  if◌then◌else◌, and_then, write,
}
use pipeline_c.CppType.{CppType, fan_in_results, branch_output_type_or_variant}
use pipeline_c.Stage.{node_key, node_name}
use pipeline_c.Builder.{
  StageDecl, CaseDecl, StageType, plain_stage, selected_branch_node, fan_in_branch_node,
  output_types, node_of,
}
use pipeline_c.Descriptor.Records.{
  StageRecord, EdgeRecord, DescriptorTopology, linear, branch, fan_in, DescriptorStageRecord,
  DescriptorBranchCaseRecord, DescriptorEdgeRecord, DescriptorView, to_runtime_edge_record,
  fill_edge_records, empty_case_record, stage_records, edge_records,
}
use pipeline_c.Descriptor.Buffer.{replicate, BranchCaseIdentity, branch_case_identity_strings}

module _ {S A : Type 0} where
  unfoldable pub stage_topology : StageType S A → DescriptorTopology
  stage_topology (plain_stage decl) = linear
  stage_topology (selected_branch_node cases) = branch
  stage_topology (fan_in_branch_node cases) = fan_in

  unfoldable pub branch_case_count_or_zero : StageType S A → ℕ
  branch_case_count_or_zero (plain_stage decl) = 0
  branch_case_count_or_zero (selected_branch_node cases) = length cases
  branch_case_count_or_zero (fan_in_branch_node cases) = length cases

  unfoldable pub total_branch_case_count : List (StageType S A) → ℕ
  total_branch_case_count [] = 0
  total_branch_case_count (s ∷ stages) =
      branch_case_count_or_zero s + total_branch_case_count stages

  unfoldable pub any_selected_branch : List (StageType S A) → Bool
  any_selected_branch [] = false
  any_selected_branch (plain_stage decl ∷ stages) = any_selected_branch stages
  any_selected_branch (selected_branch_node cases ∷ stages) = true
  any_selected_branch (fan_in_branch_node cases ∷ stages) = any_selected_branch stages

  unfoldable pub any_fan_in_branch : List (StageType S A) → Bool
  any_fan_in_branch [] = false
  any_fan_in_branch (plain_stage decl ∷ stages) = any_fan_in_branch stages
  any_fan_in_branch (selected_branch_node cases ∷ stages) = any_fan_in_branch stages
  any_fan_in_branch (fan_in_branch_node cases ∷ stages) = true

-- `cases_arr[offset + i] = node_records[i]`, for each record of a node
unfoldable pub copy_records :
    (offset : ℕ)
    → (records array : List DescriptorBranchCaseRecord) → Option (List DescriptorBranchCaseRecord)
copy_records offset [] array = some array
copy_records offset (r ∷ records) array =
    and_then (write offset r array) (copy_records (suc offset) records)

module _ {S A : Type 0} (type_name : CppType → Text) where
  -- The name of `branch_node_input`, which is `void` without cases.
  unfoldable pub input_name : List (CaseDecl S A) → Text
  input_name [] = codes "void"
  input_name (c ∷ cases) = type_name c.predicate_input

  unfoldable pub stage_type_names : StageType S A → Text × Text
  stage_type_names (plain_stage decl) = (type_name decl.input_type, type_name decl.output_type)
  stage_type_names (selected_branch_node cases) =
      (input_name cases, type_name (branch_output_type_or_variant (output_types cases)))
  stage_type_names (fan_in_branch_node cases) =
      (input_name cases, type_name (fan_in_results (output_types cases)))

  unfoldable pub to_runtime_stage_record : StageRecord → StageType S A → DescriptorStageRecord
  to_runtime_stage_record source s = record {
    index = source.index;
    key = source.key;
    name = source.name;
    input_type_name = (stage_type_names s).0;
    output_type_name = (stage_type_names s).1;
    topology = stage_topology s;
  }

  unfoldable pub fill_stage_records :
      List StageRecord → List (StageType S A) → List DescriptorStageRecord
  fill_stage_records [] stages = []
  fill_stage_records (source ∷ sources) [] = []
  fill_stage_records (source ∷ sources) (s ∷ stages) =
      to_runtime_stage_record source s ∷ fill_stage_records sources stages

  unfoldable pub case_record_of :
      (branch_index case_index : ℕ) → CaseDecl S A → BranchCaseIdentity → DescriptorBranchCaseRecord
  case_record_of branch_index case_index c identity = record {
    branch_stage_index = branch_index;
    case_index = case_index;
    case_id = identity.case_id;
    case_key = identity.case_key;
    case_label = c.case_label;
    predicate_node_id = identity.predicate_node_id;
    stage_node_id = identity.stage_node_id;
    predicate_key = c.predicate.key;
    predicate_name = c.predicate.name;
    stage_key = c.target.code.key;
    stage_name = c.target.code.name;
    input_type_name = type_name c.predicate_input;
    output_type_name = type_name c.target.output_type;
  }

  unfoldable pub to_branch_case_record :
      (branch_index case_index : ℕ) → CaseDecl S A → Option DescriptorBranchCaseRecord
  to_branch_case_record branch_index case_index c =
      and_then (branch_case_identity_strings branch_index case_index)
        (λ identity. some (case_record_of branch_index case_index c identity))

  -- `branch_case_records_from_node`, from the number of a case on
  unfoldable pub branch_case_records_from_node :
      (branch_index case_index : ℕ) → List (CaseDecl S A) → Option (List DescriptorBranchCaseRecord)
  branch_case_records_from_node branch_index case_index [] = some []
  branch_case_records_from_node branch_index case_index (c ∷ cases) =
      and_then (to_branch_case_record branch_index case_index c) (λ r.
        and_then (branch_case_records_from_node branch_index (suc case_index) cases)
          (λ records. some (r ∷ records)))

  -- `collect_one` for a branch node, and for any stage; `offset` is `case_offset`.
  unfoldable pub collect_node :
      (index : ℕ)
      → List (CaseDecl S A)
      → (offset : ℕ) → List DescriptorBranchCaseRecord
      → Option (ℕ × List DescriptorBranchCaseRecord)
  collect_node index cases offset array =
      and_then (branch_case_records_from_node index 0 cases) (λ records.
        and_then (copy_records offset records array)
          (λ array'. some (offset + length cases, array')))

  unfoldable pub collect_one :
      (index : ℕ)
      → StageType S A
      → (offset : ℕ) → List DescriptorBranchCaseRecord
      → Option (ℕ × List DescriptorBranchCaseRecord)
  collect_one index (plain_stage decl) offset array = some (offset, array)
  collect_one index (selected_branch_node cases) offset array =
      collect_node index cases offset array
  collect_one index (fan_in_branch_node cases) offset array = collect_node index cases offset array

  unfoldable pub collect_all :
      (index : ℕ)
      → List (StageType S A)
      → (offset : ℕ) → List DescriptorBranchCaseRecord
      → Option (List DescriptorBranchCaseRecord)
  collect_all index [] offset array = some array
  collect_all index (s ∷ stages) offset array =
      and_then (collect_one index s offset array)
        (λ (x : ℕ × List DescriptorBranchCaseRecord). collect_all (suc index) stages x.0 x.1)

  unfoldable pub fill_branch_case_records :
      List (StageType S A) → Option (List DescriptorBranchCaseRecord)
  fill_branch_case_records stages =
      collect_all 0 stages 0 (replicate (total_branch_case_count stages) empty_case_record)

  -- `make_descriptor` and `build_branch_descriptor`
  unfoldable pub make_descriptor : List (StageType S A) → Option DescriptorView
  make_descriptor stages = and_then (fill_branch_case_records stages) (λ cases. some (record {
    topology =
        if any_fan_in_branch stages
        then fan_in
        else if any_selected_branch stages
        then branch
        else linear;
    stages = fill_stage_records (stage_records 0 stages) stages;
    edges = fill_edge_records (edge_records 0 stages);
    branch_cases = cases;
  }))
