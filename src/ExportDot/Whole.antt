-- ===== src/ExportDot/Whole.antt =====
-- `to_dot` of a pipeline (include/pb/core/export_dot.hpp), from its stages to the graph that a reader
-- of the document finds.
use pipeline_c.Prelude.{
  ℕ, suc, ◌≤◌, ◌^◌, ◌≡◌, refl, sym, ◌∙◌, true, false, some, some-injective, List, [], ◌∷◌, Text,
  Bool, length, All, if◌then◌else◌, and_then-some, and_then-eq, Bool-cases, inl, inr, subst,
}
use pipeline_c.CppType.{CppType}
use pipeline_c.Builder.{StageType, plain_stage, selected_branch_node, fan_in_branch_node}
use pipeline_c.Descriptor.Records.{DescriptorView, stage_records}
use pipeline_c.Descriptor.{
  fill_stage_records, stage_topology, to_runtime_stage_record, make_descriptor,
  total_branch_case_count, fill_branch_case_records,
}
use pipeline_c.Descriptor.Filled.{make_descriptor-eq}
use pipeline_c.Descriptor.Spec.{edges_between}
use pipeline_c.ExportDot.{linear_dot}
use pipeline_c.ExportDot.Ways.{pipeline_has_branch, to_dot}
use pipeline_c.ExportDot.Statements.{Statement, statements}
use pipeline_c.ExportDot.Graph.{has_split, graph}
use pipeline_c.ExportDot.StageNodes.{Numbered}
use pipeline_c.ExportDot.Document.{branch_dot-graph}
use pipeline_c.ExportDot.Joined.{Joins, graph-Joins}
use pipeline_c.ExportDot.Linear.{linear_graph, linear_dot-graph, linear_graph-Joins}

module _ {S A : Type 0} (type_name : CppType → Text) where
  fill_stage_records-Numbered :
      (i : ℕ) (stages : List (StageType S A))
      → Numbered i (fill_stage_records type_name (stage_records i stages) stages)
  unfolding fill_stage_records stage_records to_runtime_stage_record
  fill_stage_records-Numbered i [] = tt
  fill_stage_records-Numbered i (s ∷ stages) = (refl, fill_stage_records-Numbered (suc i) stages)

  make_descriptor-Numbered :
      (stages : List (StageType S A)) (view : DescriptorView)
      → make_descriptor type_name stages ≡ some view
      → Numbered 0 view.stages
  unfolding make_descriptor
  make_descriptor-Numbered stages view made =
      let (cases, _, e) = and_then-some (fill_branch_case_records type_name stages) _ view made in
      subst (λ (v : DescriptorView). Numbered 0 v.stages) (some-injective _ _ e)
        (fill_stage_records-Numbered 0 stages)

  fill_stage_records-has_split :
      (i : ℕ) (stages : List (StageType S A))
      → has_split (fill_stage_records type_name (stage_records i stages) stages)
        ≡ pipeline_has_branch stages
  unfolding fill_stage_records stage_records to_runtime_stage_record stage_topology
      pipeline_has_branch
  fill_stage_records-has_split i [] = refl
  fill_stage_records-has_split i (plain_stage decl ∷ stages) =
      fill_stage_records-has_split (suc i) stages
  fill_stage_records-has_split i (selected_branch_node cases ∷ stages) = refl
  fill_stage_records-has_split i (fan_in_branch_node cases ∷ stages) = refl

  make_descriptor-has_split :
      (stages : List (StageType S A)) (view : DescriptorView)
      → make_descriptor type_name stages ≡ some view
      → has_split view.stages ≡ pipeline_has_branch stages
  unfolding make_descriptor
  make_descriptor-has_split stages view made =
      let (cases, _, e) = and_then-some (fill_branch_case_records type_name stages) _ view made in
      subst (λ (v : DescriptorView). has_split v.stages ≡ pipeline_has_branch stages)
        (some-injective _ _ e) (fill_stage_records-has_split 0 stages)

-- Where the stages and the cases are no more than a `std::size_t` of 64 bits can number, `to_dot`
-- makes a document, reading no record out of bounds. A reader of the document finds in it the graph
-- of the descriptor. If no stage is a branch or a fan-in, there is a node for each stage, and the
-- descriptor's edges; else there are the input and the output, a node for each stage, with a branch
-- or a fan-in the tests and the stages of its cases, and the ways from the input through the stages
-- to the output.
pub to_dot-graph :
    {S A : Type 0} (type_name : CppType → Text) (graph_name : Text) (stages : List (StageType S A))
    → length stages ≤ 2 ^ 64
    → total_branch_case_count stages ≤ 2 ^ 64
    → (view : DescriptorView) × (text : Text) × (make_descriptor type_name stages ≡ some view)
      × (to_dot type_name graph_name stages ≡ some text)
      × (statements text ≡ (if has_split view.stages then graph view else linear_graph view))
unfolding to_dot
to_dot-graph type_name graph_name stages small few =
    let (view, made, _, between, _) = make_descriptor-eq type_name stages small few in
    let numbered = make_descriptor-Numbered type_name stages view made in
    let (text, drawn, read) = branch_dot-graph graph_name view numbered in
    let same = make_descriptor-has_split type_name stages view made in
    elim (Bool-cases (pipeline_has_branch stages)) [
      | inl many ↦
          rw many (view, text, made, and_then-eq _ view _ made ∙ drawn, rw (same ∙ many) read)
      | inr plain ↦ rw plain (
        view,
        linear_dot graph_name view,
        made,
        and_then-eq _ view _ made,
        rw (same ∙ plain) (linear_dot-graph graph_name view),
      )
    ]

if-Joins :
    (b : Bool) (xs ys : List Statement)
    → All (Joins xs) xs
    → All (Joins ys) ys
    → All (Joins (if b then xs else ys)) (if b then xs else ys)
if-Joins true xs ys h k = h
if-Joins false xs ys h k = k

-- Where the stages and the cases are no more than a `std::size_t` of 64 bits can number, every edge
-- of the document that `to_dot` makes, with branches or without, joins two nodes that the document
-- declares.
pub to_dot-Joins :
    {S A : Type 0} (type_name : CppType → Text) (graph_name : Text) (stages : List (StageType S A))
    (text : Text)
    → length stages ≤ 2 ^ 64
    → total_branch_case_count stages ≤ 2 ^ 64
    → to_dot type_name graph_name stages ≡ some text
    → All (Joins (statements text)) (statements text)
to_dot-Joins type_name graph_name stages text small few drawn =
    let (view, text', made, drawn', read) = to_dot-graph type_name graph_name stages small few in
    let (_, made', _, between, _) = make_descriptor-eq type_name stages small few in
    let same : text' ≡ text = some-injective _ _ (sym drawn' ∙ drawn) in
    let edges : view.edges ≡ edges_between view.stages =
      subst (λ (v : DescriptorView). v.edges ≡ edges_between v.stages)
        (some-injective _ _ (sym made' ∙ made)) between in
    subst (λ t. All (Joins (statements t)) (statements t)) same
      (subst (λ ss. All (Joins ss) ss) (sym read)
        (if-Joins (has_split view.stages) (graph view) (linear_graph view) (graph-Joins view)
          (linear_graph-Joins view edges)))
