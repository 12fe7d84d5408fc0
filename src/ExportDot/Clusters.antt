-- ===== src/ExportDot/Clusters.antt =====
-- What the cases of a branch draw (`append_branch_case_subgraph` of
-- include/pb/core/export_dot.hpp).
use pipeline_c.Prelude.{
  ==_iff, inl, inr, subst, expect, ℕ, ◌≡◌, refl, none, List, [], ◌∷◌, ◌++◌, ◌==◌, append_assoc,
  codes, Text, decimal, decimal-IsLine, Bool-cases, IsLine, literal, append-IsLine, no_newline,
}
use pipeline_c.Descriptor.Records.{DescriptorBranchCaseRecord}
use pipeline_c.ExportDot.Names.{is_word_code}
use pipeline_c.ExportDot.{dot_label}
use pipeline_c.ExportDot.Lines.{dot_label-IsLine}
use pipeline_c.ExportDot.Branches.{cluster_label, branch_case_subgraph, case_subgraphs}
use pipeline_c.ExportDot.Statements.{
  node, edge, Draws, redraw, append-Draws, nothing-Draws, line-Draws, read_statement, read_named,
  skip_spaces, read_word, read_behind, declared,
}
use pipeline_c.ExportDot.NamedLines.{node-Draws, edge-Draws}
use pipeline_c.ExportDot.Graph.{
  branch_node, pred_node, case_node, branch_node-IsName, pred_node-IsName, case_node-IsName,
  case_statements, cases_statements,
}

-- The attributes of a node, behind the bracket.
pub labelled-IsLine : (value : Text) → IsLine (codes "label=" ++ (dot_label value ++ codes "];"))
unfolding no_newline
labelled-IsLine value =
    append-IsLine (literal (codes "label=") refl)
      (append-IsLine (dot_label-IsLine value) (literal (codes "];") refl))

styled-IsLine :
    (value : Text) → IsLine (codes " [style=dashed, label=" ++ (dot_label value ++ codes "];"))
unfolding no_newline
styled-IsLine value =
    append-IsLine (literal (codes " [style=dashed, label=") refl)
      (append-IsLine (dot_label-IsLine value) (literal (codes "];") refl))

cluster_front-IsLine :
    (b k : ℕ)
    → IsLine (
        codes "  subgraph cluster_case_" ++ (decimal b ++ (codes "_" ++ (decimal k ++ codes " {"))))
unfolding no_newline
cluster_front-IsLine b k = append-IsLine (literal (codes "  subgraph cluster_case_") refl) (
    append-IsLine (decimal-IsLine b) (
      append-IsLine (literal (codes "_") refl)
        (append-IsLine (decimal-IsLine k) (literal (codes " {") refl))))

cluster_line-read : (rest : Text) → read_statement (codes "  subgraph cluster_case_" ++ rest) ≡ none
unfolding read_statement skip_spaces read_named read_word read_behind declared expect is_word_code
cluster_line-read rest = refl

label_line-read : (rest : Text) → read_statement (codes "    label=" ++ rest) ≡ none
unfolding read_statement skip_spaces read_named read_word read_behind declared expect is_word_code
label_line-read rest = refl

close_line-read : read_statement (codes "  }") ≡ none
unfolding read_statement skip_spaces read_named read_word is_word_code
close_line-read = refl

pub empty_line-Draws : Draws (codes "\n") []
unfolding read_statement skip_spaces read_named read_word no_newline
empty_line-Draws = line-Draws [] {s = none} (literal [] refl) refl refl

cluster_label-IsLine :
    (c : DescriptorBranchCaseRecord)
    → IsLine (codes "    label=" ++ (dot_label (cluster_label c) ++ codes ";"))
unfolding no_newline
cluster_label-IsLine c =
    append-IsLine (literal (codes "    label=") refl)
      (append-IsLine (dot_label-IsLine (cluster_label c)) (literal (codes ";") refl))

branch_case_subgraph-Draws :
    (c : DescriptorBranchCaseRecord)
    → Draws (branch_case_subgraph c) (case_statements c.branch_stage_index c.case_index)
unfolding branch_case_subgraph no_newline is_word_code
branch_case_subgraph-Draws c =
    let b = c.branch_stage_index in
    let k = c.case_index in
    redraw
      (append-Draws {xs = []}
        (line-Draws _ {s = none} (cluster_front-IsLine b k) refl (cluster_line-read _))
        (append-Draws {xs = []}
          (line-Draws _ {s = none} (cluster_label-IsLine c) refl (label_line-read _))
          (append-Draws {xs = node (pred_node b k) ∷ []}
            (node-Draws 4 (pred_node b k) _ (pred_node-IsName b k)
              (labelled-IsLine (codes "pred: " ++ c.predicate_name)) refl)
            (append-Draws {xs = node (case_node b k) ∷ []}
              (node-Draws 4 (case_node b k) _ (case_node-IsName b k) (labelled-IsLine c.stage_name)
                refl)
              (append-Draws {xs = edge (branch_node b) (pred_node b k) ∷ []}
                (edge-Draws 4 (branch_node b) (pred_node b k) _ _ (branch_node-IsName b)
                  (pred_node-IsName b k) refl (styled-IsLine (codes "test")) refl)
                (append-Draws {xs = edge (pred_node b k) (case_node b k) ∷ []}
                  (edge-Draws 4 (pred_node b k) (case_node b k) b';' [] (pred_node-IsName b k)
                    (case_node-IsName b k) refl (literal (codes ";") refl) refl)
                  (line-Draws (codes "  }") {s = none} (literal (codes "  }") refl) refl
                    close_line-read)))))))
      (simp append_assoc)

pub case_subgraphs-Draws :
    (i : ℕ) (cases : List DescriptorBranchCaseRecord)
    → Draws (case_subgraphs i cases) (cases_statements i cases)
unfolding case_subgraphs
case_subgraphs-Draws i [] = nothing-Draws
case_subgraphs-Draws i (c ∷ cases) =
    append-Draws
      (elim (Bool-cases (c.branch_stage_index == i)) [
        | inl here ↦ rw here (
            subst (λ j. Draws (branch_case_subgraph c) (case_statements j c.case_index))
              ((==_iff c.branch_stage_index i).0 here) (branch_case_subgraph-Draws c))
        | inr other ↦ rw other nothing-Draws
      ])
      (case_subgraphs-Draws i cases)
