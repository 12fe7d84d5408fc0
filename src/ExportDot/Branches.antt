-- ===== src/ExportDot/Branches.antt =====
-- The nodes of a pipeline with branches, in `dot_emitter` of include/pb/core/export_dot.hpp. A
-- function gives the text that the code appends to its stream, and `none` where it reads a record out
-- of bounds.
use pipeline_c.Prelude.{
  ℕ, Bool, true, false, Option, some, List, [], ◌∷◌, ◌++◌, ◌==◌, if◌then◌else◌, codes, Text,
  decimal, is_empty, get_elem?, and_then,
}
use pipeline_c.Descriptor.Records.{
  DescriptorTopology, linear, branch, fan_in, DescriptorStageRecord, DescriptorBranchCaseRecord,
  DescriptorView,
}
use pipeline_c.ExportDot.{dot_label, stage_dot}

-- The label of a case's cluster.
unfoldable pub cluster_label : DescriptorBranchCaseRecord → Text
cluster_label c =
    codes "Case "
    ++ ((if is_empty c.case_label then decimal c.case_index else c.case_label)
        ++ (codes ": " ++ c.predicate_name))

-- `append_branch_case_subgraph`, a line for each statement
unfoldable pub branch_case_subgraph : DescriptorBranchCaseRecord → Text
branch_case_subgraph c =
    let b = decimal c.branch_stage_index in
    let k = decimal c.case_index in
    (codes "  subgraph cluster_case_" ++ (b ++ (codes "_" ++ (k ++ codes " {\n"))))
    ++ ((codes "    label=" ++ (dot_label (cluster_label c) ++ codes ";\n"))
        ++ ((codes "    pred_"
              ++ (b
                  ++ (codes "_"
                      ++ (k
                          ++ (codes " [label="
                              ++ (dot_label (codes "pred: " ++ c.predicate_name)
                                  ++ codes "];\n"))))))
            ++ ((codes "    case_"
                  ++ (b
                      ++ (codes "_"
                          ++ (k
                              ++ (codes " [label=" ++ (dot_label c.stage_name ++ codes "];\n"))))))
                ++ ((codes "    branch_"
                      ++ (b
                          ++ (codes " -> pred_"
                              ++ (b
                                  ++ (codes "_"
                                      ++ (k
                                          ++ (codes " [style=dashed, label="
                                              ++ (dot_label (codes "test") ++ codes "];\n"))))))))
                    ++ ((codes "    pred_"
                          ++ (b
                              ++ (codes "_"
                                  ++ (k
                                      ++ (codes " -> case_"
                                          ++ (b ++ (codes "_" ++ (k ++ codes ";\n"))))))))
                        ++ codes "  }\n")))))

-- The loop over all cases, which passes over those of other stages.
unfoldable pub case_subgraphs : (stage_index : ℕ) → List DescriptorBranchCaseRecord → Text
case_subgraphs stage_index [] = []
case_subgraphs stage_index (c ∷ cases) =
    (if c.branch_stage_index == stage_index then branch_case_subgraph c else [])
    ++ case_subgraphs stage_index cases

unfoldable pub branch_stage_label : DescriptorTopology → Text
branch_stage_label fan_in = codes "fan_in"
branch_stage_label linear = codes "branch"
branch_stage_label branch = codes "branch"

-- The stage's own record, once it is read, gives the label only.
unfoldable pub branch_stage_text : DescriptorView → (stage_index : ℕ) → DescriptorStageRecord → Text
branch_stage_text descriptor stage_index branch_stage =
    (codes "  branch_"
      ++ (decimal stage_index
          ++ (codes " [shape=diamond, label="
              ++ (dot_label (branch_stage_label branch_stage.topology) ++ codes "];\n"))))
    ++ (codes "\n" ++ (case_subgraphs stage_index descriptor.branch_cases ++ codes "\n"))

-- `append_branch_stage_dot`
unfoldable pub branch_stage_dot : DescriptorView → (stage_index : ℕ) → Option Text
branch_stage_dot descriptor stage_index =
    and_then (get_elem? descriptor.stages stage_index)
      (λ branch_stage. some (branch_stage_text descriptor stage_index branch_stage))

unfoldable pub is_branch_topology : DescriptorTopology → Bool
is_branch_topology linear = false
is_branch_topology branch = true
is_branch_topology fan_in = true

unfoldable pub is_branch_stage : DescriptorStageRecord → Bool
is_branch_stage stage = is_branch_topology stage.topology

unfoldable pub emit_single_stage : DescriptorView → DescriptorStageRecord → Option Text
emit_single_stage descriptor stage =
    if is_branch_stage stage
    then branch_stage_dot descriptor stage.index
    else some (stage_dot stage)

unfoldable pub emit_stages : DescriptorView → List DescriptorStageRecord → Option Text
emit_stages descriptor [] = some []
emit_stages descriptor (stage ∷ stages) =
    and_then (emit_single_stage descriptor stage)
      (λ text. and_then (emit_stages descriptor stages) (λ rest. some (text ++ rest)))
