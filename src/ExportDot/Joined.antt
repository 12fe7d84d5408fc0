-- ===== src/ExportDot/Joined.antt =====
-- The edges that the DOT form of a pipeline with branches (include/pb/core/export_dot.hpp) draws join
-- nodes that it declares.
use mathlib.Core.List.{Mem, mem-cons_self, mem-cons_of_mem, mem-append_left, mem-append_right}
use pipeline_c.Prelude.{
  ℕ, suc, Bool, true, false, List, [], ◌∷◌, ◌++◌, ◌==◌, if◌then◌else◌, Text, All, All-append,
}
use pipeline_c.Descriptor.Records.{
  DescriptorStageRecord, DescriptorBranchCaseRecord, DescriptorView,
}
use pipeline_c.ExportDot.Statements.{Statement, node, edge}
use pipeline_c.ExportDot.Graph.{
  splits, from_input, to_output, stage_node, branch_node, pred_node, case_node, case_statements,
  cases_statements, stages_statements, case_exits, entry, exits, edges_to, path, graph,
}

-- Both ends of an edge are declared.
abbrev pub Joins : List Statement → Statement → Type 0
Joins all (node name) = Unit
Joins all (edge from target) = Mem (node from) all × Mem (node target) all

abbrev Within : (part all : List Statement) → Type 0
Within part all = (s : Statement) → Mem s part → Mem s all

Within-left :
    {xs : List Statement} (ys : List Statement) {all : List Statement}
    → Within (xs ++ ys) all
    → Within xs all
Within-left ys within s m = within s (mem-append_left ys m)

Within-right :
    (xs : List Statement) {ys all : List Statement} → Within (xs ++ ys) all → Within ys all
Within-right xs within s m = within s (mem-append_right xs m)

module _ (all : List Statement) where
  abbrev Declared : Text → Type 0
  Declared name = Mem (node name) all

  case_statements-Joins :
      (here : Bool) (i k : ℕ)
      → Declared (branch_node i)
      → Within (if here then case_statements i k else []) all
      → All (Joins all) (if here then case_statements i k else [])
  case_statements-Joins false i k branch within = tt
  case_statements-Joins true i k branch within =
      let pred = within (node (pred_node i k)) mem-cons_self in
      let case = within (node (case_node i k)) (mem-cons_of_mem _ mem-cons_self) in
      (tt, (tt, ((branch, pred), ((pred, case), tt))))

  case_exit-Declared :
      (here : Bool) (i k : ℕ)
      → Within (if here then case_statements i k else []) all
      → All Declared (if here then case_node i k ∷ [] else [])
  case_exit-Declared false i k within = tt
  case_exit-Declared true i k within =
      (within (node (case_node i k)) (mem-cons_of_mem _ mem-cons_self), tt)

  cases_statements-Joins :
      (i : ℕ) (cases : List DescriptorBranchCaseRecord)
      → Declared (branch_node i)
      → Within (cases_statements i cases) all
      → All (Joins all) (cases_statements i cases)
  cases_statements-Joins i [] branch within = tt
  cases_statements-Joins i (c ∷ cases) branch within =
      let here = c.branch_stage_index == i in
      let first = if here then case_statements i c.case_index else [] in
      All-append (Joins all) first (cases_statements i cases)
        (case_statements-Joins here i c.case_index branch
          (Within-left (cases_statements i cases) within))
        (cases_statements-Joins i cases branch (Within-right first within))

  case_exits-Declared :
      (i : ℕ) (cases : List DescriptorBranchCaseRecord)
      → Within (cases_statements i cases) all
      → All Declared (case_exits i cases)
  case_exits-Declared i [] within = tt
  case_exits-Declared i (c ∷ cases) within =
      let here = c.branch_stage_index == i in
      All-append Declared (if here then case_node i c.case_index ∷ [] else []) (case_exits i cases)
        (case_exit-Declared here i c.case_index (Within-left (cases_statements i cases) within))
        (case_exits-Declared i cases
          (Within-right (if here then case_statements i c.case_index else []) within))

  edges_to-Joins :
      (target : Text) (names : List Text)
      → Declared target
      → All Declared names
      → All (Joins all) (edges_to target names)
  edges_to-Joins target [] end starts = tt
  edges_to-Joins target (name ∷ names) end (start, starts) =
      ((start, end), edges_to-Joins target names end starts)

  module _ (cases : List DescriptorBranchCaseRecord) where
    abbrev stage_part : Bool → ℕ → List Statement
    stage_part many i =
        if many then node (branch_node i) ∷ cases_statements i cases else node (stage_node i) ∷ []

    stage_part-Joins :
        (many : Bool) (i : ℕ) → Within (stage_part many i) all → All (Joins all) (stage_part many i)
    stage_part-Joins false i within = (tt, tt)
    stage_part-Joins true i within = (
      tt,
      cases_statements-Joins i cases (within (node (branch_node i)) mem-cons_self)
          (λ s m. within s (mem-cons_of_mem _ m)),
    )

    entry-Declared :
        (many : Bool) (i : ℕ)
        → Within (stage_part many i) all
        → Declared (if many then branch_node i else stage_node i)
    entry-Declared false i within = within (node (stage_node i)) mem-cons_self
    entry-Declared true i within = within (node (branch_node i)) mem-cons_self

    exits-Declared :
        (many : Bool) (i : ℕ)
        → Within (stage_part many i) all
        → All Declared (if many then case_exits i cases else stage_node i ∷ [])
    exits-Declared false i within = (within (node (stage_node i)) mem-cons_self, tt)
    exits-Declared true i within =
        case_exits-Declared i cases (λ s m. within s (mem-cons_of_mem _ m))

    stages_statements-Joins :
        (i : ℕ) (stages : List DescriptorStageRecord)
        → Within (stages_statements cases i stages) all
        → All (Joins all) (stages_statements cases i stages)
    stages_statements-Joins i [] within = tt
    stages_statements-Joins i (stage ∷ stages) within =
        let many = splits stage.topology in
        All-append (Joins all) (stage_part many i) (stages_statements cases (suc i) stages)
          (stage_part-Joins many i (Within-left (stages_statements cases (suc i) stages) within))
          (stages_statements-Joins (suc i) stages (Within-right (stage_part many i) within))

    path-Joins :
        (i : ℕ) (front : List Text) (stages : List DescriptorStageRecord)
        → Declared to_output
        → All Declared front
        → Within (stages_statements cases i stages) all
        → All (Joins all) (path cases i front stages)
    path-Joins i front [] output starts within = edges_to-Joins to_output front output starts
    path-Joins i front (stage ∷ stages) output starts within =
        let many = splits stage.topology in
        All-append (Joins all) (edges_to (entry stage i) front) _
          (edges_to-Joins (entry stage i) front
            (entry-Declared many i (Within-left (stages_statements cases (suc i) stages) within))
            starts)
          (path-Joins (suc i) (exits cases stage i) stages output
            (exits-Declared many i (Within-left (stages_statements cases (suc i) stages) within))
            (Within-right (stage_part many i) within))

pub graph-Joins : (descriptor : DescriptorView) → All (Joins (graph descriptor)) (graph descriptor)
graph-Joins descriptor =
    let cases = descriptor.branch_cases in
    let all = graph descriptor in
    let nodes = stages_statements cases 0 descriptor.stages in
    let path_behind = node to_output ∷ path cases 0 (from_input ∷ []) descriptor.stages in
    let behind : Within (nodes ++ path_behind) all = λ s m. mem-cons_of_mem _ m in
    let output : Declared all to_output =
      Within-right nodes behind (node to_output) mem-cons_self in
    let input : Declared all from_input = mem-cons_self in
    (
      tt,
      All-append (Joins all) nodes _
          (stages_statements-Joins all cases 0 descriptor.stages (Within-left path_behind behind))
          (
            tt,
            path-Joins all cases 0 (from_input ∷ []) descriptor.stages output (input, tt)
                (Within-left path_behind behind),
          ),
    )
