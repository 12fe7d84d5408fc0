-- ===== src/ExportDot/Graph.antt =====
-- The graph that the DOT form of a pipeline with branches (include/pb/core/export_dot.hpp) draws,
-- described from the descriptor itself.
use pipeline_c.Prelude.{
  ℕ, suc, ◌≡◌, refl, Bool, false, true, List, [], ◌∷◌, ◌++◌, ◌==◌, if◌then◌else◌, text_eq, codes,
  Text, decimal,
}
use pipeline_c.Descriptor.Records.{
  DescriptorTopology, linear, branch, fan_in, DescriptorStageRecord, DescriptorBranchCaseRecord,
  DescriptorView,
}
use pipeline_c.ExportDot.Names.{is_word_code, are_word_codes}
use pipeline_c.ExportDot.Branches.{is_branch_topology, is_branch_stage}
use pipeline_c.ExportDot.Statements.{Statement, node, edge}
use pipeline_c.ExportDot.NamedLines.{IsWord, word, append-IsWord, decimal-IsWord, IsName}

abbrev pub from_input : Text
from_input = codes "from_input"

abbrev pub to_output : Text
to_output = codes "to_output"

abbrev pub stage_node : ℕ → Text
stage_node i = codes "stage_" ++ decimal i

abbrev pub branch_node : ℕ → Text
branch_node i = codes "branch_" ++ decimal i

abbrev pub pred_node : (i k : ℕ) → Text
pred_node i k = codes "pred_" ++ (decimal i ++ (codes "_" ++ decimal k))

abbrev pub case_node : (i k : ℕ) → Text
case_node i k = codes "case_" ++ (decimal i ++ (codes "_" ++ decimal k))

pub from_input-IsName : IsName from_input
unfolding are_word_codes is_word_code text_eq
from_input-IsName = record { kept = refl; filled = refl; new = refl }

pub to_output-IsName : IsName to_output
unfolding are_word_codes is_word_code text_eq
to_output-IsName = record { kept = refl; filled = refl; new = refl }

pub stage_node-IsName : (i : ℕ) → IsName (stage_node i)
unfolding are_word_codes is_word_code text_eq
stage_node-IsName i = record {
  kept = (append-IsWord (word (codes "stage_") refl) (decimal-IsWord i)).holds;
  filled = refl;
  new = refl;
}

pub branch_node-IsName : (i : ℕ) → IsName (branch_node i)
unfolding are_word_codes is_word_code text_eq
branch_node-IsName i = record {
  kept = (append-IsWord (word (codes "branch_") refl) (decimal-IsWord i)).holds;
  filled = refl;
  new = refl;
}

numbers-IsWord : (i k : ℕ) → IsWord (decimal i ++ (codes "_" ++ decimal k))
unfolding are_word_codes is_word_code
numbers-IsWord i k =
    append-IsWord (decimal-IsWord i) (append-IsWord (word (codes "_") refl) (decimal-IsWord k))

pub pred_node-IsName : (i k : ℕ) → IsName (pred_node i k)
unfolding are_word_codes is_word_code text_eq
pred_node-IsName i k = record {
  kept = (append-IsWord (word (codes "pred_") refl) (numbers-IsWord i k)).holds;
  filled = refl;
  new = refl;
}

pub case_node-IsName : (i k : ℕ) → IsName (case_node i k)
unfolding are_word_codes is_word_code text_eq
case_node-IsName i k = record {
  kept = (append-IsWord (word (codes "case_") refl) (numbers-IsWord i k)).holds;
  filled = refl;
  new = refl;
}

-- A stage with cases: a branch or a fan-in.
abbrev pub splits : DescriptorTopology → Bool
splits linear = false
splits branch = true
splits fan_in = true

splits-is_branch_topology :
    (topology : DescriptorTopology) → splits topology ≡ is_branch_topology topology
unfolding is_branch_topology
splits-is_branch_topology linear = refl
splits-is_branch_topology branch = refl
splits-is_branch_topology fan_in = refl

pub splits-is_branch_stage :
    (stage : DescriptorStageRecord) → splits stage.topology ≡ is_branch_stage stage
unfolding is_branch_stage
splits-is_branch_stage stage = splits-is_branch_topology stage.topology

-- A stage with cases among the stages.
abbrev pub has_split : List DescriptorStageRecord → Bool
has_split [] = false
has_split (stage ∷ stages) = if splits stage.topology then true else has_split stages

-- A case: the test of its predicate, and its stage behind it.
abbrev pub case_statements : (i k : ℕ) → List Statement
case_statements i k =
    node (pred_node i k)
    ∷ node (case_node i k)
    ∷ edge (branch_node i) (pred_node i k)
    ∷ edge (pred_node i k) (case_node i k)
    ∷ []

-- The cases of the stage with the index `i`.
abbrev pub cases_statements : (i : ℕ) → List DescriptorBranchCaseRecord → List Statement
cases_statements i [] = []
cases_statements i (c ∷ cases) =
    (if c.branch_stage_index == i then case_statements i c.case_index else [])
    ++ cases_statements i cases

module _ (cases : List DescriptorBranchCaseRecord) where
  -- The nodes of the stages: a branch is a node for itself and its cases.
  abbrev pub stages_statements : (i : ℕ) → List DescriptorStageRecord → List Statement
  stages_statements i [] = []
  stages_statements i (stage ∷ stages) =
      (if splits stage.topology
        then node (branch_node i) ∷ cases_statements i cases
        else node (stage_node i) ∷ [])
      ++ stages_statements (suc i) stages

abbrev pub case_exits : (i : ℕ) → List DescriptorBranchCaseRecord → List Text
case_exits i [] = []
case_exits i (c ∷ cases) =
    (if c.branch_stage_index == i then case_node i c.case_index ∷ [] else []) ++ case_exits i cases

-- The node at which a stage is entered, and those at which it is left.
abbrev pub entry : DescriptorStageRecord → (i : ℕ) → Text
entry stage i = if splits stage.topology then branch_node i else stage_node i

abbrev pub exits : List DescriptorBranchCaseRecord → DescriptorStageRecord → (i : ℕ) → List Text
exits cases stage i = if splits stage.topology then case_exits i cases else stage_node i ∷ []

abbrev pub edges_to : (target : Text) → List Text → List Statement
edges_to target [] = []
edges_to target (name ∷ names) = edge name target ∷ edges_to target names

-- The way from the nodes in front of the stages to the output.
abbrev pub path :
    List DescriptorBranchCaseRecord
    → (i : ℕ) → (front : List Text) → List DescriptorStageRecord
    → List Statement
path cases i front [] = edges_to to_output front
path cases i front (stage ∷ stages) =
    edges_to (entry stage i) front ++ path cases (suc i) (exits cases stage i) stages

-- The whole graph, its nodes first but for the edges inside the branches.
abbrev pub graph : DescriptorView → List Statement
graph descriptor =
    node from_input
    ∷ (stages_statements descriptor.branch_cases 0 descriptor.stages
        ++ (node to_output ∷ path descriptor.branch_cases 0 (from_input ∷ []) descriptor.stages))
