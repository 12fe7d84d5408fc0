-- ===== src/ExportDot/Arrows.antt =====
-- The single edges of a pipeline with branches (include/pb/core/export_dot.hpp).
use pipeline_c.Prelude.{
  ℕ, suc, ◌+◌, ◌≡◌, refl, ◌∙◌, List, [], ◌∷◌, ◌++◌, ◌==◌, inl, inr, append_assoc, if◌then◌else◌,
  codes, Text, decimal, Bool-cases, literal, no_newline, arith,
}
use pipeline_c.Descriptor.Records.{DescriptorStageRecord, DescriptorBranchCaseRecord}
use pipeline_c.ExportDot.Names.{is_word_code}
use pipeline_c.ExportDot.Branches.{is_branch_stage}
use pipeline_c.ExportDot.Ways.{emit_branch_to_next_edges, branch_to_output}
use pipeline_c.ExportDot.Statements.{edge, Draws, append-Draws, nothing-Draws}
use pipeline_c.ExportDot.NamedLines.{edge-Draws, IsName}
use pipeline_c.ExportDot.Graph.{
  to_output, stage_node, branch_node, case_node, stage_node-IsName, branch_node-IsName,
  case_node-IsName, to_output-IsName, case_exits, splits-is_branch_stage, entry, edges_to,
}

-- A line with an arrow.
pub arrow-Draws :
    (name target : Text) {t : Text}
    → IsName name
    → IsName target
    → t ≡ codes "  " ++ (name ++ (codes " -> " ++ (target ++ codes ";\n")))
    → Draws t (edge name target ∷ [])
unfolding is_word_code no_newline
arrow-Draws name target h k text =
    edge-Draws 2 name target b';' [] h k refl (literal (codes ";") refl) (text ∙ simp append_assoc)

case_arrow-Draws :
    (i k : ℕ) (next : DescriptorStageRecord)
    → Draws
        (codes "  case_"
          ++ (decimal i
              ++ (codes "_"
                  ++ (decimal k
                      ++ (if is_branch_stage next
                          then codes " -> branch_" ++ (decimal (i + 1) ++ codes ";\n")
                          else codes " -> stage_" ++ (decimal (i + 1) ++ codes ";\n"))))))
        (edge (case_node i k) (entry next (suc i)) ∷ [])
case_arrow-Draws i k next =
    let after : i + 1 ≡ suc i = omega arith in
    rw (splits-is_branch_stage next) (elim (Bool-cases (is_branch_stage next)) [
      | inl many ↦
          rw (many, after)
            (arrow-Draws (case_node i k) (branch_node (suc i)) (case_node-IsName i k)
              (branch_node-IsName (suc i)) (simp append_assoc))
      | inr one ↦
          rw (one, after)
            (arrow-Draws (case_node i k) (stage_node (suc i)) (case_node-IsName i k)
              (stage_node-IsName (suc i)) (simp append_assoc))
    ])

pub stage_arrow-Draws :
    (i : ℕ) (next : DescriptorStageRecord)
    → Draws
        (if is_branch_stage next
          then codes "  stage_"
            ++ (decimal i ++ (codes " -> branch_" ++ (decimal (i + 1) ++ codes ";\n")))
          else codes "  stage_"
            ++ (decimal i ++ (codes " -> stage_" ++ (decimal (i + 1) ++ codes ";\n"))))
        (edge (stage_node i) (entry next (suc i)) ∷ [])
stage_arrow-Draws i next =
    let after : i + 1 ≡ suc i = omega arith in
    rw (splits-is_branch_stage next) (elim (Bool-cases (is_branch_stage next)) [
      | inl many ↦
          rw (many, after)
            (arrow-Draws (stage_node i) (branch_node (suc i)) (stage_node-IsName i)
              (branch_node-IsName (suc i)) (simp append_assoc))
      | inr one ↦
          rw (one, after)
            (arrow-Draws (stage_node i) (stage_node (suc i)) (stage_node-IsName i)
              (stage_node-IsName (suc i)) (simp append_assoc))
    ])

pub next_edges-Draws :
    (i : ℕ) (next : DescriptorStageRecord) (cases : List DescriptorBranchCaseRecord)
    → Draws
        (emit_branch_to_next_edges i (is_branch_stage next) cases)
        (edges_to (entry next (suc i)) (case_exits i cases))
unfolding emit_branch_to_next_edges
next_edges-Draws i next [] = nothing-Draws
next_edges-Draws i next (c ∷ cases) = elim (Bool-cases (c.branch_stage_index == i)) [
  | inl here ↦
      rw here (append-Draws (case_arrow-Draws i c.case_index next) (next_edges-Draws i next cases))
  | inr other ↦ rw other (next_edges-Draws i next cases)
]

pub output_arrow-Draws :
    (i k : ℕ)
    → Draws
        (codes "  case_" ++ (decimal i ++ (codes "_" ++ (decimal k ++ codes " -> to_output;\n"))))
        (edge (case_node i k) to_output ∷ [])
output_arrow-Draws i k =
    arrow-Draws (case_node i k) to_output (case_node-IsName i k) to_output-IsName
      (simp append_assoc)

pub output_edges-Draws :
    (i : ℕ) (cases : List DescriptorBranchCaseRecord)
    → Draws (branch_to_output i cases) (edges_to to_output (case_exits i cases))
unfolding branch_to_output
output_edges-Draws i [] = nothing-Draws
output_edges-Draws i (c ∷ cases) = elim (Bool-cases (c.branch_stage_index == i)) [
  | inl here ↦
      rw here (append-Draws (output_arrow-Draws i c.case_index) (output_edges-Draws i cases))
  | inr other ↦ rw other (output_edges-Draws i cases)
]
