-- ===== src/ExportDot/Linear.antt =====
-- The DOT document of a pipeline without branches (include/pb/core/export_dot.hpp), read as a graph.
use mathlib.Core.List.{Mem, mem-cons_self, mem-cons_of_mem, mem-append_left}
use pipeline_c.Prelude.{
  ◌≡◌, refl, List, [], ◌∷◌, ◌++◌, append_assoc, codes, Text, literal, append-IsLine, no_newline,
  All, All-append, map, sym, subst,
}
use pipeline_c.Descriptor.Records.{DescriptorStageRecord, DescriptorEdgeRecord, DescriptorView}
use pipeline_c.Descriptor.Spec.{edges_between}
use pipeline_c.ExportDot.Names.{is_word_code}
use pipeline_c.ExportDot.{stages_dot, edge_dot, edges_dot, linear_dot}
use pipeline_c.ExportDot.Statements.{
  Statement, node, edge, Draws, redraw, append-Draws, nothing-Draws, end-Draws, statements,
  statements-Draws,
}
use pipeline_c.ExportDot.NamedLines.{edge-Draws}
use pipeline_c.ExportDot.Graph.{stage_node, stage_node-IsName}
use pipeline_c.ExportDot.Clusters.{empty_line-Draws, labelled-IsLine}
use pipeline_c.ExportDot.StageNodes.{stage_dot-Draws}
use pipeline_c.ExportDot.Document.{front-Draws, close-Draws}
use pipeline_c.ExportDot.Joined.{Joins}

abbrev pub stage_statement : DescriptorStageRecord → Statement
stage_statement stage = node (stage_node stage.index)

abbrev pub edge_statement : DescriptorEdgeRecord → Statement
edge_statement e = edge (stage_node e.from_stage_index) (stage_node e.to_stage_index)

-- A node for each stage, and the edges of the descriptor.
abbrev pub linear_graph : DescriptorView → List Statement
linear_graph descriptor =
    map stage_statement descriptor.stages ++ map edge_statement descriptor.edges

stages_dot-Draws :
    (stages : List DescriptorStageRecord) → Draws (stages_dot stages) (map stage_statement stages)
unfolding stages_dot
stages_dot-Draws [] = nothing-Draws
stages_dot-Draws (stage ∷ stages) = append-Draws (stage_dot-Draws stage) (stages_dot-Draws stages)

edge_dot-Draws : (e : DescriptorEdgeRecord) → Draws (edge_dot e) (edge_statement e ∷ [])
unfolding edge_dot is_word_code no_newline
edge_dot-Draws e =
    let i = e.from_stage_index in
    let j = e.to_stage_index in
    edge-Draws 2 (stage_node i) (stage_node j) _ _ (stage_node-IsName i) (stage_node-IsName j) refl
      (append-IsLine (literal (codes " [") refl)
        (labelled-IsLine (e.from_key ++ (codes " -> " ++ e.to_key))))
      (simp append_assoc)

edges_dot-Draws :
    (edges : List DescriptorEdgeRecord) → Draws (edges_dot edges) (map edge_statement edges)
unfolding edges_dot
edges_dot-Draws [] = nothing-Draws
edges_dot-Draws (e ∷ edges) = append-Draws (edge_dot-Draws e) (edges_dot-Draws edges)

pub linear_dot-graph :
    (graph_name : Text) (descriptor : DescriptorView)
    → statements (linear_dot graph_name descriptor) ≡ linear_graph descriptor
unfolding linear_dot
linear_dot-graph graph_name descriptor = statements-Draws (
    redraw
      (append-Draws {xs = []} (front-Draws graph_name) (
        append-Draws (end-Draws (stages_dot-Draws descriptor.stages) empty_line-Draws)
          (end-Draws (edges_dot-Draws descriptor.edges) close-Draws)))
      (simp append_assoc))

module _ (all : List Statement) where
  nodes-Joins : (stages : List DescriptorStageRecord) → All (Joins all) (map stage_statement stages)
  nodes-Joins [] = tt
  nodes-Joins (stage ∷ stages) = (tt, nodes-Joins stages)

  edges_between-Joins :
      (stages : List DescriptorStageRecord)
      → ((s : Statement) → Mem s (map stage_statement stages) → Mem s all)
      → All (Joins all) (map edge_statement (edges_between stages))
  edges_between-Joins [] within = tt
  edges_between-Joins (s ∷ []) within = tt
  edges_between-Joins (s ∷ t ∷ stages) within = (
    (within _ mem-cons_self, within _ (mem-cons_of_mem _ mem-cons_self)),
    edges_between-Joins (t ∷ stages) (λ u m. within u (mem-cons_of_mem _ m)),
  )

pub linear_graph-Joins :
    (descriptor : DescriptorView)
    → descriptor.edges ≡ edges_between descriptor.stages
    → All (Joins (linear_graph descriptor)) (linear_graph descriptor)
linear_graph-Joins descriptor e =
    let stages = descriptor.stages in
    let all = linear_graph descriptor in
    All-append (Joins all) (map stage_statement stages) _ (nodes-Joins all stages) (
      subst (λ edges. All (Joins all) (map edge_statement edges)) (sym e)
        (edges_between-Joins all stages (λ s m. mem-append_left _ m)))
