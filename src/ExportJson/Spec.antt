-- ===== src/ExportJson/Spec.antt =====
-- What the graph documents of include/pb/core/export_json.hpp hold of a descriptor.
use pipeline_c.Prelude.{
  ℕ, Option, none, some, List, [], ◌∷◌, ◌==◌, if◌then◌else◌, codes, Text, decimal, map, length,
}
use pipeline_c.Descriptor.Records.{
  DescriptorTopology, linear, branch, fan_in, DescriptorStageRecord, DescriptorBranchCaseRecord,
  DescriptorEdgeRecord, DescriptorView,
}
use pipeline_c.ExportJson.Reader.{CaseDoc, StageDoc, EdgeDoc, GraphDoc}

-- A case without a label is shown with its number.
abbrev pub shown_label : Text → (number : ℕ) → Text
shown_label [] number = decimal number
shown_label (ch ∷ label) number = ch ∷ label

abbrev pub case_doc : DescriptorBranchCaseRecord → CaseDoc
case_doc c = record {
  index = c.case_index;
  case_id = c.case_id;
  case_key = c.case_key;
  case_label = shown_label c.case_label c.case_index;
  predicate_node_id = c.predicate_node_id;
  stage_node_id = c.stage_node_id;
  predicate_key = c.predicate_key;
  predicate_name = c.predicate_name;
  stage_key = c.stage_key;
  stage_name = c.stage_name;
}

abbrev pub edge_doc : DescriptorEdgeRecord → EdgeDoc
edge_doc edge = record {
  index = edge.index;
  from_stage_index = edge.from_stage_index;
  to_stage_index = edge.to_stage_index;
  from_key = edge.from_key;
  from_name = edge.from_name;
  to_key = edge.to_key;
  to_name = edge.to_name;
}

-- The cases of a stage.
abbrev pub cases_at : ℕ → List DescriptorBranchCaseRecord → List DescriptorBranchCaseRecord
cases_at index [] = []
cases_at index (c ∷ cases) =
    let rest = cases_at index cases in if c.branch_stage_index == index then c ∷ rest else rest

module _ (view : DescriptorView) where
  abbrev pub cases_doc : ℕ → List CaseDoc
  cases_doc index = map case_doc (cases_at index view.branch_cases)

  abbrev pub kind_doc : DescriptorTopology → Text
  kind_doc linear = codes "stage"
  kind_doc branch = codes "branch"
  kind_doc fan_in = codes "fan_in"

  abbrev pub kind_cases : ℕ → DescriptorTopology → Option (List CaseDoc)
  kind_cases index linear = none
  kind_cases index branch = some (cases_doc index)
  kind_cases index fan_in = some (cases_doc index)

  abbrev pub stage_doc : DescriptorStageRecord → StageDoc
  stage_doc s = record {
    index = s.index;
    key = s.key;
    name = s.name;
    kind = kind_doc s.topology;
    branch_cases = kind_cases s.index s.topology;
  }

  -- What a document holds of a descriptor.
  abbrev pub graph_doc : GraphDoc
  graph_doc = record {
    topology = view.topology;
    stage_count = length view.stages;
    edge_count = length view.edges;
    stages = map stage_doc view.stages;
    edges = map edge_doc view.edges;
  }
