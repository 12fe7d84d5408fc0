-- ===== src/ExportDot/Edges.antt =====
-- What the edges between the stages of a pipeline with branches draw (`emit_all_edges` of
-- include/pb/core/export_dot.hpp).
use pipeline_c.Prelude.{
  ℕ, suc, ◌+◌, ◌-◌, ◌≡◌, refl, sym, ◌∙◌, ap, true, List, [], ◌∷◌, ◌++◌, inl, inr, some,
  append_assoc, codes, Text, decimal, get_elem?, and_then, Bool-cases, ltb, length, arith,
}
use pipeline_c.Descriptor.Records.{DescriptorStageRecord, DescriptorView}
use pipeline_c.ExportDot.Branches.{is_branch_stage}
use pipeline_c.ExportDot.Ways.{
  emit_input_to_first_edge, neighbour_edges, emit_adjacent_edge, adjacent_edges,
  emit_adjacent_edges, last_to_output, emit_last_to_output_edge, emit_all_edges,
}
use pipeline_c.ExportDot.Statements.{edge, Draws, redraw, append-Draws}
use pipeline_c.ExportDot.Graph.{
  from_input, to_output, stage_node, branch_node, stage_node-IsName, branch_node-IsName,
  from_input-IsName, to_output-IsName, splits-is_branch_stage, entry, exits, edges_to, path,
}
use pipeline_c.ExportDot.StageNodes.{DrawsSome, Located, Located-first, Located-rest}
use pipeline_c.ExportDot.Arrows.{
  arrow-Draws, stage_arrow-Draws, next_edges-Draws, output_edges-Draws,
}

module _ (descriptor : DescriptorView) where
  neighbour_edges-Draws :
      (i : ℕ) (stage next : DescriptorStageRecord)
      → Draws
          (neighbour_edges descriptor i stage next)
          (edges_to (entry next (suc i)) (exits descriptor.branch_cases stage i))
  unfolding neighbour_edges
  neighbour_edges-Draws i stage next =
      rw (splits-is_branch_stage stage) (elim (Bool-cases (is_branch_stage stage)) [
        | inl many ↦ rw many (next_edges-Draws i next descriptor.branch_cases)
        | inr one ↦ rw one (stage_arrow-Draws i next)
      ])

  last_to_output-Draws :
      (i : ℕ) (stage : DescriptorStageRecord)
      → Draws
          (last_to_output descriptor i stage)
          (edges_to to_output (exits descriptor.branch_cases stage i))
  unfolding last_to_output
  last_to_output-Draws i stage =
      rw (splits-is_branch_stage stage) (elim (Bool-cases (is_branch_stage stage)) [
        | inl many ↦ rw many (output_edges-Draws i descriptor.branch_cases)
        | inr one ↦ rw one (
            arrow-Draws (stage_node i) to_output (stage_node-IsName i) to_output-IsName
              (simp append_assoc))
      ])

  emit_adjacent_edge-eq :
      (i : ℕ) (stage next : DescriptorStageRecord) (stages : List DescriptorStageRecord)
      → Located descriptor i (stage ∷ next ∷ stages)
      → i + length (stage ∷ next ∷ stages) ≡ length descriptor.stages
      → emit_adjacent_edge descriptor i ≡ some (neighbour_edges descriptor i stage next)
  unfolding emit_adjacent_edge and_then
  emit_adjacent_edge-eq i stage next stages located counted =
      let inside : ltb (i + 1) (length descriptor.stages) ≡ true = ground arith in
      let after : i + 1 ≡ suc i = omega arith in
      let second : get_elem? descriptor.stages (i + 1) ≡ some next =
        ap (get_elem? descriptor.stages) after
        ∙ Located-first descriptor (suc i) next stages
            (Located-rest descriptor i stage (next ∷ stages) located) in
      rw inside (rw (Located-first descriptor i stage (next ∷ stages) located) (rw second refl))

  -- From the stage with the index `i` on: the edges between the stages, and those of the last one.
  behind-Draws :
      (i : ℕ) (stage : DescriptorStageRecord) (stages : List DescriptorStageRecord)
      → Located descriptor i (stage ∷ stages)
      → i + length (stage ∷ stages) ≡ length descriptor.stages
      → (text : Text) × (last : Text) × (adjacent_edges descriptor (length stages) i ≡ some text)
        × (emit_last_to_output_edge descriptor ≡ some last)
        × Draws
            (text ++ last)
            (path descriptor.branch_cases (suc i) (exits descriptor.branch_cases stage i) stages)
  unfolding adjacent_edges emit_last_to_output_edge and_then
  behind-Draws i stage [] located counted =
      let filled : ltb 0 (length descriptor.stages) ≡ true = ground arith in
      let end : length descriptor.stages - 1 ≡ i = omega arith in
      let found : get_elem? descriptor.stages (length descriptor.stages - 1) ≡ some stage =
        ap (get_elem? descriptor.stages) end ∙ Located-first descriptor i stage [] located in
      (
        [],
        last_to_output descriptor i stage,
        refl,
        rw filled (rw found (rw end refl)),
        last_to_output-Draws i stage,
      )
  behind-Draws i stage (next ∷ stages) located counted =
      let (text, last, adjacent, left, drawn) =
        behind-Draws (suc i) next stages (Located-rest descriptor i stage (next ∷ stages) located)
          (omega arith) in
      (
        neighbour_edges descriptor i stage next ++ text,
        last,
        rw (emit_adjacent_edge-eq i stage next stages located counted) (rw adjacent refl),
        left,
        redraw (append-Draws (neighbour_edges-Draws i stage next) drawn)
            (append_assoc (neighbour_edges descriptor i stage next) text last),
      )

input_edge-Draws :
    (descriptor : DescriptorView) (first : DescriptorStageRecord)
    (stages : List DescriptorStageRecord)
    → descriptor.stages ≡ first ∷ stages
    → Draws (emit_input_to_first_edge descriptor) (edge from_input (entry first 0) ∷ [])
unfolding emit_input_to_first_edge decimal
input_edge-Draws descriptor first stages e =
    rw (e, splits-is_branch_stage first)
      (elim (Bool-cases (is_branch_stage first)) [
        | inl many ↦
            rw many
              (arrow-Draws from_input (branch_node 0) from_input-IsName (branch_node-IsName 0) refl)
        | inr one ↦
            rw one
              (arrow-Draws from_input (stage_node 0) from_input-IsName (stage_node-IsName 0) refl)
      ])

no_stage-Draws :
    (descriptor : DescriptorView)
    → descriptor.stages ≡ []
    → DrawsSome (emit_all_edges descriptor) (edge from_input to_output ∷ [])
unfolding emit_all_edges emit_adjacent_edges adjacent_edges emit_last_to_output_edge and_then
    emit_input_to_first_edge
no_stage-Draws descriptor e = (
  codes "  from_input -> to_output;\n",
  rw e refl,
  arrow-Draws from_input to_output from_input-IsName to_output-IsName refl,
)

all_edges-Draws :
    (descriptor : DescriptorView) (stages : List DescriptorStageRecord)
    → descriptor.stages ≡ stages
    → DrawsSome
        (emit_all_edges descriptor)
        (path descriptor.branch_cases 0 (from_input ∷ []) stages)
unfolding emit_all_edges emit_adjacent_edges and_then
all_edges-Draws descriptor [] e = no_stage-Draws descriptor e
all_edges-Draws descriptor (first ∷ stages) e =
    let counted : 0 + length (first ∷ stages) ≡ length descriptor.stages =
      omega (arith, ap (λ (l : List DescriptorStageRecord). length l) (sym e)) in
    let rounds : length descriptor.stages - 1 ≡ length stages = omega arith in
    let located : Located descriptor 0 (first ∷ stages) =
      λ k. let same : k + 0 ≡ k = omega arith in rw (same, e) refl in
    let (text, last, adjacent, left, drawn) =
      behind-Draws descriptor 0 first stages located counted in
    (
      emit_input_to_first_edge descriptor ++ (text ++ last),
      rw rounds (rw adjacent (rw left refl)),
      append-Draws (input_edge-Draws descriptor first stages e) drawn,
    )

-- All edges outside the branches: the way from the input through the stages to the output.
pub emit_all_edges-Draws :
    (descriptor : DescriptorView)
    → DrawsSome
        (emit_all_edges descriptor)
        (path descriptor.branch_cases 0 (from_input ∷ []) descriptor.stages)
emit_all_edges-Draws descriptor = all_edges-Draws descriptor descriptor.stages refl
