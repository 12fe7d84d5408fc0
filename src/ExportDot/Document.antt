-- ===== src/ExportDot/Document.antt =====
-- The DOT document of a pipeline with branches (include/pb/core/export_dot.hpp), read as a graph.
use pipeline_c.Prelude.{
  ◌≡◌, refl, true, none, some, List, [], ◌∷◌, ◌++◌, append_assoc, codes, Text, expect, text_eq,
  and_then, ◌+◌, IsLine, literal, append-IsLine, no_newline, arith,
}
use pipeline_c.Descriptor.Records.{DescriptorView}
use pipeline_c.ExportDot.{sanitize_identifier}
use pipeline_c.ExportDot.Names.{
  is_ascii_digit, is_word_code, are_word_codes, is_plain_name, is_plain_name-codes,
  sanitize_identifier-valid,
}
use pipeline_c.ExportDot.Ways.{document, branch_dot}
use pipeline_c.ExportDot.Statements.{
  Statement, node, Draws, append-Draws, line-Draws, redraw, read_statement, read_named, skip_spaces,
  read_word, read_behind, declared, statements, statements-Draws, end-Draws,
}
use pipeline_c.ExportDot.NamedLines.{node-Draws, no_newline-word}
use pipeline_c.ExportDot.Graph.{from_input, to_output, from_input-IsName, to_output-IsName, graph}
use pipeline_c.ExportDot.Clusters.{empty_line-Draws}
use pipeline_c.ExportDot.StageNodes.{Numbered, Located, shaped-IsLine, emit_stages-Draws}
use pipeline_c.ExportDot.Edges.{emit_all_edges-Draws}

name_line-read :
    (name : Text)
    → is_plain_name name ≡ true
    → read_statement (codes "digraph " ++ (name ++ codes " {")) ≡ none
unfolding read_statement skip_spaces read_named read_word read_behind declared expect is_ascii_digit
    is_word_code are_word_codes
name_line-read [] h = cc
name_line-read (c ∷ t) h = ground arith

graph_name-IsLine :
    (name : Text) → is_plain_name name ≡ true → IsLine (codes "digraph " ++ (name ++ codes " {"))
unfolding no_newline
graph_name-IsLine [] h = cc h
graph_name-IsLine (c ∷ t) h = append-IsLine (literal (codes "digraph ") refl) (
    append-IsLine {a = c ∷ t} (literal _ (no_newline-word (c ∷ t) (is_plain_name-codes (c ∷ t) h)))
      (literal (codes " {") refl))

settings-Draws : Draws (codes "  rankdir=LR;\n" ++ codes "  node [shape=box];\n\n") []
unfolding read_statement skip_spaces read_named read_word read_behind declared expect no_newline
    is_word_code text_eq
settings-Draws =
    append-Draws {xs = []}
      (line-Draws (codes "  rankdir=LR;") {s = none} (literal _ refl) refl refl)
      (append-Draws {a = codes "  node [shape=box];\n"} {xs = []}
        (line-Draws (codes "  node [shape=box];") {s = none} (literal _ refl) refl refl)
        empty_line-Draws)

-- What stands in front of the nodes in all documents.
pub front-Draws :
    (graph_name : Text)
    → Draws
        ((codes "digraph " ++ (sanitize_identifier graph_name ++ codes " {\n"))
          ++ (codes "  rankdir=LR;\n" ++ codes "  node [shape=box];\n\n"))
        []
front-Draws graph_name =
    let name = sanitize_identifier graph_name in
    let valid = (sanitize_identifier-valid graph_name).0 in
    redraw
      (end-Draws
        (line-Draws _ {s = none} (graph_name-IsLine name valid) refl (name_line-read name valid))
        settings-Draws)
      (simp append_assoc)

pub close-Draws : Draws (codes "}\n") []
unfolding read_statement skip_spaces read_named read_word no_newline is_word_code
close-Draws = line-Draws (codes "}") {s = none} (literal _ refl) refl refl

document-Draws :
    (graph_name : Text) {stages edges : Text} {nodes arrows : List Statement}
    → Draws stages nodes
    → Draws edges arrows
    → Draws
        (document graph_name stages edges)
        (node from_input ∷ (nodes ++ (node to_output ∷ arrows)))
unfolding document no_newline
document-Draws graph_name {stages} {edges} {nodes} {arrows} drawn joined =
    let input : Draws _ (node from_input ∷ []) =
      node-Draws 2 from_input _ from_input-IsName
        (shaped-IsLine (codes "label=") (codes "Input") (literal _ refl)) refl in
    let output : Draws _ (node to_output ∷ []) =
      node-Draws 2 to_output _ to_output-IsName
        (shaped-IsLine (codes "shape=doublecircle, label=") (codes "Output") (literal _ refl))
        refl in
    redraw
      (append-Draws {xs = []} (front-Draws graph_name) (
        append-Draws (end-Draws input empty_line-Draws) (
          append-Draws drawn
            (append-Draws (end-Draws output empty_line-Draws) (end-Draws joined close-Draws)))))
      (simp append_assoc)

-- `emit` makes a document, whatever the descriptor holds, if its stages are numbered in their order:
-- no record is read out of bounds, and a reader of the document finds the graph of the descriptor.
pub branch_dot-graph :
    (graph_name : Text) (descriptor : DescriptorView)
    → Numbered 0 descriptor.stages
    → (text : Text) × (branch_dot graph_name descriptor ≡ some text)
      × (statements text ≡ graph descriptor)
unfolding branch_dot and_then
branch_dot-graph graph_name descriptor numbered =
    let located : Located descriptor 0 descriptor.stages =
      λ k. let same : k + 0 ≡ k = omega arith in rw same refl in
    let (stages, made, drawn) = emit_stages-Draws descriptor 0 descriptor.stages numbered located in
    let (edges, joined, arrows) = emit_all_edges-Draws descriptor in
    let text = document graph_name stages edges in
    let whole = document-Draws graph_name drawn arrows in
    (text, rw made (rw joined refl), statements-Draws whole)
