-- ===== src/ExportDot/Ways.antt =====
-- The edges between the stages of a pipeline with branches, the whole document and `to_dot`
-- (include/pb/core/export_dot.hpp). Texts are `none` where a record is read out of bounds.
use pipeline_c.Prelude.{
  ℕ, zero, suc, ◌+◌, ◌-◌, Bool, true, false, Option, some, List, [], ◌∷◌, ◌++◌, ◌==◌, ltb,
  if◌then◌else◌, codes, Text, decimal, length, get_elem?, and_then,
}
use pipeline_c.CppType.{CppType}
use pipeline_c.Builder.{StageType, plain_stage, selected_branch_node, fan_in_branch_node}
use pipeline_c.Descriptor.Records.{
  DescriptorStageRecord, DescriptorBranchCaseRecord, DescriptorView,
}
use pipeline_c.Descriptor.{make_descriptor}
use pipeline_c.ExportDot.{sanitize_identifier, dot_label, linear_dot}
use pipeline_c.ExportDot.Branches.{is_branch_stage, emit_stages}

-- With no stage there is no record to read.
unfoldable pub emit_input_to_first_edge : DescriptorView → Text
emit_input_to_first_edge descriptor = elim (descriptor.stages) [
  | [] ↦ codes "  from_input -> to_output;\n"
  | first ∷ stages ↦
      if is_branch_stage first
      then codes "  from_input -> branch_0;\n"
      else codes "  from_input -> stage_0;\n"
]

unfoldable pub emit_branch_to_next_edges :
    (branch_index : ℕ) (next_is_branch : Bool) → List DescriptorBranchCaseRecord → Text
emit_branch_to_next_edges branch_index next_is_branch [] = []
emit_branch_to_next_edges branch_index next_is_branch (c ∷ cases) =
    (if c.branch_stage_index == branch_index
      then codes "  case_"
        ++ (decimal branch_index
            ++ (codes "_"
                ++ (decimal c.case_index
                    ++ (if next_is_branch
                        then codes " -> branch_" ++ (decimal (branch_index + 1) ++ codes ";\n")
                        else codes " -> stage_" ++ (decimal (branch_index + 1) ++ codes ";\n")))))
      else [])
    ++ emit_branch_to_next_edges branch_index next_is_branch cases

-- The edge of two neighbours, once their records are read.
unfoldable pub neighbour_edges :
    DescriptorView → (index : ℕ) → (current_stage next_stage : DescriptorStageRecord) → Text
neighbour_edges descriptor index current_stage next_stage =
    if is_branch_stage current_stage
    then emit_branch_to_next_edges index (is_branch_stage next_stage) descriptor.branch_cases
    else if is_branch_stage next_stage
    then codes "  stage_"
      ++ (decimal index ++ (codes " -> branch_" ++ (decimal (index + 1) ++ codes ";\n")))
    else codes "  stage_"
      ++ (decimal index ++ (codes " -> stage_" ++ (decimal (index + 1) ++ codes ";\n")))

unfoldable pub emit_adjacent_edge : DescriptorView → (index : ℕ) → Option Text
emit_adjacent_edge descriptor index =
    if ltb (index + 1) (length descriptor.stages)
    then and_then (get_elem? descriptor.stages index) (λ current_stage.
      and_then (get_elem? descriptor.stages (index + 1))
        (λ next_stage. some (neighbour_edges descriptor index current_stage next_stage)))
    else some []

-- The loop of `emit_adjacent_edges`, with `rounds` left.
unfoldable pub adjacent_edges : DescriptorView → (rounds index : ℕ) → Option Text
adjacent_edges descriptor zero index = some []
adjacent_edges descriptor (suc rounds) index =
    and_then (emit_adjacent_edge descriptor index) (λ text.
      and_then (adjacent_edges descriptor rounds (suc index)) (λ rest. some (text ++ rest)))

unfoldable pub emit_adjacent_edges : DescriptorView → Option Text
emit_adjacent_edges descriptor = adjacent_edges descriptor (length descriptor.stages - 1) 0

-- `emit_branch_to_output_edges`
unfoldable pub branch_to_output : (branch_index : ℕ) → List DescriptorBranchCaseRecord → Text
branch_to_output branch_index [] = []
branch_to_output branch_index (c ∷ cases) =
    (if c.branch_stage_index == branch_index
      then codes "  case_"
        ++ (decimal branch_index
            ++ (codes "_" ++ (decimal c.case_index ++ codes " -> to_output;\n")))
      else [])
    ++ branch_to_output branch_index cases

unfoldable pub last_to_output : DescriptorView → (index : ℕ) → DescriptorStageRecord → Text
last_to_output descriptor index last =
    if is_branch_stage last
    then branch_to_output index descriptor.branch_cases
    else codes "  stage_" ++ (decimal index ++ codes " -> to_output;\n")

unfoldable pub emit_last_to_output_edge : DescriptorView → Option Text
emit_last_to_output_edge descriptor =
    let index = length descriptor.stages - 1 in
    if ltb 0 (length descriptor.stages)
    then and_then (get_elem? descriptor.stages index)
        (λ last. some (last_to_output descriptor index last))
    else some []

unfoldable pub emit_all_edges : DescriptorView → Option Text
emit_all_edges descriptor = and_then (emit_adjacent_edges descriptor) (λ text.
    and_then (emit_last_to_output_edge descriptor)
      (λ last. some (emit_input_to_first_edge descriptor ++ (text ++ last))))

-- What `emit` puts around the stages and the edges.
unfoldable pub document : (graph_name stages edges : Text) → Text
document graph_name stages edges =
    (codes "digraph " ++ (sanitize_identifier graph_name ++ codes " {\n"))
    ++ ((codes "  rankdir=LR;\n" ++ codes "  node [shape=box];\n\n")
        ++ ((codes "  from_input [label=" ++ (dot_label (codes "Input") ++ codes "];\n\n"))
            ++ (stages
                ++ ((codes "  to_output [shape=doublecircle, label="
                      ++ (dot_label (codes "Output") ++ codes "];\n\n"))
                    ++ (edges ++ codes "}\n")))))

-- `dot_emitter::emit` of a pipeline with branches
unfoldable pub branch_dot : (graph_name : Text) → DescriptorView → Option Text
branch_dot graph_name descriptor = and_then (emit_stages descriptor descriptor.stages) (λ stages.
    and_then (emit_all_edges descriptor) (λ edges. some (document graph_name stages edges)))

module _ {S A : Type 0} where
  -- `pipeline_has_branch_v`
  unfoldable pub pipeline_has_branch : List (StageType S A) → Bool
  pipeline_has_branch [] = false
  pipeline_has_branch (plain_stage decl ∷ stages) = pipeline_has_branch stages
  pipeline_has_branch (selected_branch_node cases ∷ stages) = true
  pipeline_has_branch (fan_in_branch_node cases ∷ stages) = true

  unfoldable pub to_dot :
      (type_name : CppType → Text) (graph_name : Text) → List (StageType S A) → Option Text
  to_dot type_name graph_name stages = and_then (make_descriptor type_name stages) (λ descriptor.
      if pipeline_has_branch stages
      then branch_dot graph_name descriptor
      else some (linear_dot graph_name descriptor))
