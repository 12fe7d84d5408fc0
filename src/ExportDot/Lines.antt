-- ===== src/ExportDot/Lines.antt =====
-- Every node and edge of the DOT form of include/pb/core/export_dot.hpp stands on a line of its own.
use pipeline_c.Prelude.{
  ℕ, ◌≡◌, refl, sym, ◌∙◌, ap, true, List, [], ◌∷◌, ◌++◌, append_assoc, codes, Text, map, arith,
  decimal, decimal-IsLine, no_newline, IsLine, literal, append-IsLine, split_lines,
  split_lines-newline,
}
use pipeline_c.Descriptor.Records.{DescriptorStageRecord, DescriptorEdgeRecord, DescriptorView}
use pipeline_c.ExportDot.{
  is_digit, is_identifier_code, sanitize_code, sanitize_codes, sanitize_front, sanitize_identifier,
  escape_code, escape_dot_label, dot_label, stage_label, stage_dot, edge_dot, stages_dot, edges_dot,
  linear_dot,
}

no_newline-escape_code : (ch : ℕ) → no_newline (escape_code ch) ≡ true
unfolding escape_code no_newline
no_newline-escape_code ch = ground arith

escape_code-IsLine : (ch : ℕ) → IsLine (escape_code ch)
escape_code-IsLine ch = literal _ (no_newline-escape_code ch)

escape_dot_label-IsLine : (value : Text) → IsLine (escape_dot_label value)
unfolding escape_dot_label no_newline
escape_dot_label-IsLine [] = literal [] refl
escape_dot_label-IsLine (ch ∷ value) =
    append-IsLine (escape_code-IsLine ch) (escape_dot_label-IsLine value)

pub dot_label-IsLine : (value : Text) → IsLine (dot_label value)
unfolding dot_label no_newline
dot_label-IsLine value =
    append-IsLine (literal (codes "\"") refl)
      (append-IsLine (escape_dot_label-IsLine value) (literal (codes "\"") refl))

-- The line of a stage or an edge, without its line feed.
abbrev pub stage_line : DescriptorStageRecord → Text
stage_line stage =
    codes "  stage_"
    ++ (decimal stage.index ++ (codes " [label=" ++ (dot_label (stage_label stage) ++ codes "];")))

abbrev pub edge_line : DescriptorEdgeRecord → Text
edge_line edge =
    codes "  stage_"
    ++ (decimal edge.from_stage_index
        ++ (codes " -> stage_"
            ++ (decimal edge.to_stage_index
                ++ (codes " [label="
                    ++ (dot_label (edge.from_key ++ (codes " -> " ++ edge.to_key))
                        ++ codes "];")))))

stage_line-IsLine : (stage : DescriptorStageRecord) → IsLine (stage_line stage)
unfolding no_newline
stage_line-IsLine stage = append-IsLine (literal (codes "  stage_") refl) (
    append-IsLine (decimal-IsLine stage.index) (
      append-IsLine (literal (codes " [label=") refl)
        (append-IsLine (dot_label-IsLine (stage_label stage)) (literal (codes "];") refl))))

edge_line-IsLine : (edge : DescriptorEdgeRecord) → IsLine (edge_line edge)
unfolding no_newline
edge_line-IsLine edge = append-IsLine (literal (codes "  stage_") refl) (
    append-IsLine (decimal-IsLine edge.from_stage_index) (
      append-IsLine (literal (codes " -> stage_") refl) (
        append-IsLine (decimal-IsLine edge.to_stage_index) (
          append-IsLine (literal (codes " [label=") refl) (
            append-IsLine (dot_label-IsLine (edge.from_key ++ (codes " -> " ++ edge.to_key)))
              (literal (codes "];") refl))))))

stage_dot-line :
    (stage : DescriptorStageRecord) (t : Text)
    → stage_dot stage ++ t ≡ stage_line stage ++ b'\n' ∷ t
unfolding stage_dot
stage_dot-line stage t = simp append_assoc

edge_dot-line :
    (edge : DescriptorEdgeRecord) (t : Text) → edge_dot edge ++ t ≡ edge_line edge ++ b'\n' ∷ t
unfolding edge_dot
edge_dot-line edge t = simp append_assoc

split_lines-stages :
    (stages : List DescriptorStageRecord) (t : Text)
    → split_lines (stages_dot stages ++ t) ≡ map stage_line stages ++ split_lines t
unfolding stages_dot
split_lines-stages [] t = refl
split_lines-stages (stage ∷ stages) t =
    ap split_lines (
      append_assoc (stage_dot stage) (stages_dot stages) t
      ∙ stage_dot-line stage (stages_dot stages ++ t))
    ∙ split_lines-newline (stage_line stage) (stages_dot stages ++ t)
        (stage_line-IsLine stage).holds
    ∙ ap (λ ls. stage_line stage ∷ ls) (split_lines-stages stages t)

split_lines-edges :
    (edges : List DescriptorEdgeRecord) (t : Text)
    → split_lines (edges_dot edges ++ t) ≡ map edge_line edges ++ split_lines t
unfolding edges_dot
split_lines-edges [] t = refl
split_lines-edges (edge ∷ edges) t =
    ap split_lines
      (append_assoc (edge_dot edge) (edges_dot edges) t ∙ edge_dot-line edge (edges_dot edges ++ t))
    ∙ split_lines-newline (edge_line edge) (edges_dot edges ++ t) (edge_line-IsLine edge).holds
    ∙ ap (λ ls. edge_line edge ∷ ls) (split_lines-edges edges t)

no_newline-sanitize_code : (ch : ℕ) (t : Text) → no_newline (sanitize_code ch ∷ t) ≡ no_newline t
unfolding sanitize_code is_identifier_code no_newline
no_newline-sanitize_code ch t = ground arith

no_newline-sanitize_codes : (value : Text) → no_newline (sanitize_codes value) ≡ true
unfolding sanitize_codes no_newline
no_newline-sanitize_codes [] = refl
no_newline-sanitize_codes (ch ∷ value) =
    no_newline-sanitize_code ch (sanitize_codes value) ∙ no_newline-sanitize_codes value

no_newline-sanitize_front : (t : Text) → no_newline t ≡ true → no_newline (sanitize_front t) ≡ true
unfolding sanitize_front no_newline is_digit
no_newline-sanitize_front [] h = refl
no_newline-sanitize_front (ch ∷ t) h = ground arith

split_lines-close : split_lines (codes "}\n") ≡ codes "}" ∷ [] ∷ []
unfolding split_lines
split_lines-close = refl

-- Whatever the names and keys are, the DOT document of a linear pipeline has exactly these lines: the
-- graph's name, two lines of settings, an empty one, a line for each stage, an empty one, a line for
-- each edge, and the closing brace.
pub split_lines-linear_dot :
    (graph_name : Text) (descriptor : DescriptorView)
    → split_lines (linear_dot graph_name descriptor)
      ≡ (codes "digraph " ++ (sanitize_identifier graph_name ++ codes " {"))
        ∷ codes "  rankdir=LR;"
        ∷ codes "  node [shape=box];"
        ∷ []
        ∷ (map stage_line descriptor.stages
            ++ [] ∷ (map edge_line descriptor.edges ++ codes "}" ∷ [] ∷ []))
unfolding linear_dot sanitize_identifier no_newline
split_lines-linear_dot graph_name descriptor =
    let name = sanitize_identifier graph_name in
    let named = append-IsLine (literal (codes "digraph ") refl) (
      append-IsLine
        (literal name (
          no_newline-sanitize_front (sanitize_codes graph_name)
            (no_newline-sanitize_codes graph_name)))
        (literal (codes " {") refl)) in
    let edges = edges_dot descriptor.edges ++ codes "}\n" in
    let stages = stages_dot descriptor.stages ++ (codes "\n" ++ edges) in
    let settings = codes "  rankdir=LR;\n" ++ (codes "  node [shape=box];\n\n" ++ stages) in
    let head : linear_dot graph_name descriptor
        ≡ (codes "digraph " ++ (name ++ codes " {")) ++ b'\n' ∷ settings =
      ap (λ t. codes "digraph " ++ t) (sym (append_assoc name (codes " {") (b'\n' ∷ settings))) in
    ap split_lines head
    ∙ split_lines-newline (codes "digraph " ++ (name ++ codes " {")) settings named.holds
    ∙ ap (λ ls. (codes "digraph " ++ (name ++ codes " {")) ∷ ls)
        (split_lines-newline (codes "  rankdir=LR;") _ refl
          ∙ ap (λ ls. codes "  rankdir=LR;" ∷ ls)
              (split_lines-newline (codes "  node [shape=box];") _ refl
                ∙ ap (λ ls. codes "  node [shape=box];" ∷ ls)
                    (split_lines-newline [] stages refl
                      ∙ ap (λ ls. [] ∷ ls)
                          (split_lines-stages descriptor.stages (codes "\n" ++ edges)
                            ∙ ap (λ ls. map stage_line descriptor.stages ++ ls)
                                (split_lines-newline [] edges refl
                                  ∙ ap (λ ls. [] ∷ ls)
                                      (split_lines-edges descriptor.edges (codes "}\n")
                                        ∙ ap (λ ls. map edge_line descriptor.edges ++ ls)
                                            split_lines-close))))))
