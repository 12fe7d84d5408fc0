-- ===== src/ExportDot/StageNodes.antt =====
-- What the stages of a pipeline with branches draw (`emit_stages` of include/pb/core/export_dot.hpp).
use pipeline_c.Prelude.{
  append-nil, inl, inr, subst, ℕ, suc, ◌+◌, ◌≡◌, refl, sym, ◌∙◌, ap, Option, some, List, [], ◌∷◌,
  ◌++◌, append_assoc, if◌then◌else◌, codes, Text, get_elem?, and_then, Bool-cases, IsLine, literal,
  append-IsLine, no_newline, arith,
}
use pipeline_c.Descriptor.Records.{DescriptorStageRecord, DescriptorView}
use pipeline_c.ExportDot.{dot_label, stage_label, stage_dot}
use pipeline_c.ExportDot.Lines.{dot_label-IsLine}
use pipeline_c.ExportDot.Branches.{
  case_subgraphs, branch_stage_label, branch_stage_dot, branch_stage_text, is_branch_stage,
  emit_single_stage, emit_stages,
}
use pipeline_c.ExportDot.Statements.{Statement, node, Draws, redraw, append-Draws, nothing-Draws}
use pipeline_c.ExportDot.NamedLines.{node-Draws}
use pipeline_c.ExportDot.Graph.{
  splits, splits-is_branch_stage, stage_node, branch_node, stage_node-IsName, branch_node-IsName,
  cases_statements, stages_statements,
}
use pipeline_c.ExportDot.Clusters.{labelled-IsLine, empty_line-Draws, case_subgraphs-Draws}

pub shaped-IsLine :
    (shape value : Text) → IsLine shape → IsLine (shape ++ (dot_label value ++ codes "];"))
unfolding no_newline
shaped-IsLine shape value h =
    append-IsLine h (append-IsLine (dot_label-IsLine value) (literal (codes "];") refl))

pub stage_dot-Draws :
    (stage : DescriptorStageRecord) → Draws (stage_dot stage) (node (stage_node stage.index) ∷ [])
unfolding stage_dot
stage_dot-Draws stage =
    node-Draws 2 (stage_node stage.index) _ (stage_node-IsName stage.index)
      (labelled-IsLine (stage_label stage)) (simp append_assoc)

-- A text is made, and it draws these statements.
abbrev pub DrawsSome : Option Text → List Statement → Type 0
DrawsSome o ss = (text : Text) × (o ≡ some text) × Draws text ss

module _ (descriptor : DescriptorView) where
  branch_stage_dot-Draws :
      (i : ℕ) (stage : DescriptorStageRecord)
      → get_elem? descriptor.stages i ≡ some stage
      → DrawsSome
          (branch_stage_dot descriptor i)
          (node (branch_node i) ∷ cases_statements i descriptor.branch_cases)
  unfolding branch_stage_dot branch_stage_text and_then no_newline
  branch_stage_dot-Draws i stage found = (
    branch_stage_text descriptor i stage,
    rw found refl,
    redraw
        (append-Draws {xs = node (branch_node i) ∷ []}
          (node-Draws 2 (branch_node i) _ (branch_node-IsName i)
            (shaped-IsLine (codes "shape=diamond, label=") (branch_stage_label stage.topology)
              (literal _ refl))
            refl)
          (append-Draws {xs = []} empty_line-Draws (
            subst (λ ss. Draws (case_subgraphs i descriptor.branch_cases ++ codes "\n") ss)
              (append-nil _)
              (append-Draws (case_subgraphs-Draws i descriptor.branch_cases) empty_line-Draws))))
        (simp append_assoc),
  )

  emit_single_stage-Draws :
      (i : ℕ) (stage : DescriptorStageRecord)
      → stage.index ≡ i
      → get_elem? descriptor.stages i ≡ some stage
      → DrawsSome (emit_single_stage descriptor stage) (
          if splits stage.topology
          then node (branch_node i) ∷ cases_statements i descriptor.branch_cases
          else node (stage_node i) ∷ [])
  unfolding emit_single_stage
  emit_single_stage-Draws i stage numbered found =
      subst
        (λ j. DrawsSome (emit_single_stage descriptor stage) (
          if splits stage.topology
          then node (branch_node j) ∷ cases_statements j descriptor.branch_cases
          else node (stage_node j) ∷ []))
        numbered
        (rw (splits-is_branch_stage stage) (elim (Bool-cases (is_branch_stage stage)) [
          | inl many ↦ rw many (
              branch_stage_dot-Draws stage.index stage
                (ap (get_elem? descriptor.stages) numbered ∙ found))
          | inr one ↦ rw one (_, refl, stage_dot-Draws stage)
        ]))

-- The records stand in the order of their indexes, from `i` on.
abbrev pub Numbered : (i : ℕ) → List DescriptorStageRecord → Type 0
Numbered i [] = Unit
Numbered i (stage ∷ stages) = (stage.index ≡ i) × Numbered (suc i) stages

-- These are the records of a descriptor from `i` on.
abbrev pub Located : DescriptorView → (i : ℕ) → List DescriptorStageRecord → Type 0
Located descriptor i stages = (k : ℕ) → get_elem? descriptor.stages (k + i) ≡ get_elem? stages k

module _ (descriptor : DescriptorView) (i : ℕ) (stage : DescriptorStageRecord)
    (stages : List DescriptorStageRecord) (located : Located descriptor i (stage ∷ stages)) where
  pub Located-first : get_elem? descriptor.stages i ≡ some stage
  Located-first =
      let front : 0 + i ≡ i = omega arith in
      ap (get_elem? descriptor.stages) (sym front) ∙ located 0

  pub Located-rest : Located descriptor (suc i) stages
  Located-rest k =
      let next : k + suc i ≡ suc k + i = omega arith in
      ap (get_elem? descriptor.stages) next ∙ located (suc k)

pub emit_stages-Draws :
    (descriptor : DescriptorView) (i : ℕ) (stages : List DescriptorStageRecord)
    → Numbered i stages
    → Located descriptor i stages
    → DrawsSome (emit_stages descriptor stages) (stages_statements descriptor.branch_cases i stages)
unfolding emit_stages and_then
emit_stages-Draws descriptor i [] numbered located = ([], refl, nothing-Draws)
emit_stages-Draws descriptor i (stage ∷ stages) (numbered, rest) located =
    let (one, first, drawn) =
      emit_single_stage-Draws descriptor i stage numbered
        (Located-first descriptor i stage stages located) in
    let (others, behind, drawn_behind) =
      emit_stages-Draws descriptor (suc i) stages rest
        (Located-rest descriptor i stage stages located) in
    (one ++ others, rw first (rw behind refl), append-Draws drawn drawn_behind)
