-- ===== src/ExportJson.antt =====
-- `to_json` of a pipeline (include/pb/core/export_json.hpp): the graph that a descriptor describes, as
-- one JSON document. A function gives the text that the code appends to its output.
pub mod Reader
pub mod Spec
pub mod Items
pub mod RoundTrip
mod Tests
use pipeline_c.Prelude.{
  Bool, true, false, List, [], ◌∷◌, ◌++◌, ◌==◌, if◌then◌else◌, codes, Text, ℕ, decimal, is_empty,
  length,
}
use pipeline_c.Json.Graph.{json_string}
use pipeline_c.Descriptor.Records.{
  DescriptorTopology, linear, branch, fan_in, DescriptorStageRecord, DescriptorBranchCaseRecord,
  DescriptorEdgeRecord, DescriptorView,
}

-- A loop that puts a comma before every element but the first.
unfoldable pub joined : {B : Type 0} → (B → Text) → (first : Bool) → List B → Text
joined json first [] = []
joined json first (x ∷ xs) = (if first then [] else codes ",") ++ (json x ++ joined json false xs)

unfoldable pub branch_case_label_or_index : DescriptorBranchCaseRecord → Text
branch_case_label_or_index c = if is_empty c.case_label then decimal c.case_index else c.case_label

unfoldable pub branch_case_json : DescriptorBranchCaseRecord → Text
branch_case_json c =
    codes "{\"index\":"
    ++ (decimal c.case_index
        ++ (codes ",\"case_id\":"
            ++ (json_string c.case_id
                ++ (codes ",\"case_key\":"
                    ++ (json_string c.case_key
                        ++ (codes ",\"case_label\":"
                            ++ (json_string (branch_case_label_or_index c)
                                ++ (codes ",\"predicate_node_id\":"
                                    ++ (json_string c.predicate_node_id
                                        ++ (codes ",\"stage_node_id\":"
                                            ++ (json_string c.stage_node_id
                                                ++ (codes ",\"predicate_key\":"
                                                    ++ (json_string c.predicate_key
                                                        ++ (codes ",\"predicate_name\":"
                                                            ++ (json_string c.predicate_name
                                                            ++ (codes ",\"stage_key\":"
                                                            ++ (json_string c.stage_key
                                                            ++ (codes ",\"stage_name\":"
                                                            ++ (json_string c.stage_name
                                                            ++ (codes
                                                            ",\"predicate_edge\":{\"from\":\"branch\",\"to\":\"predicate\",\"style\":\"dashed\",\"label\":\"test\"}"
                                                            ++ (codes
                                                            ",\"stage_edge\":{\"from\":\"predicate\",\"to\":\"case_stage\"}"
                                                            ++ codes "}")))))))))))))))))))))

-- The loop over all records, which passes over those of other stages.
unfoldable pub matching_cases_json :
    (branch_stage_index : ℕ) (first : Bool) → List DescriptorBranchCaseRecord → Text
matching_cases_json branch_stage_index first [] = []
matching_cases_json branch_stage_index first (c ∷ cases) =
    let rest = matching_cases_json branch_stage_index first cases in
    let behind = matching_cases_json branch_stage_index false cases in
    if c.branch_stage_index == branch_stage_index
    then (if first then [] else codes ",") ++ (branch_case_json c ++ behind)
    else rest

unfoldable pub branch_cases_json : DescriptorView → (branch_stage_index : ℕ) → Text
branch_cases_json descriptor branch_stage_index =
    codes ",\"branch_cases\":["
    ++ (matching_cases_json branch_stage_index true descriptor.branch_cases ++ codes "]")

unfoldable pub topology_name : DescriptorTopology → Text
topology_name linear = codes "linear"
topology_name branch = codes "branch"
topology_name fan_in = codes "fan_in"

unfoldable pub stage_kind_json : DescriptorView → (index : ℕ) → DescriptorTopology → Text
stage_kind_json descriptor index linear = codes ",\"kind\":\"stage\""
stage_kind_json descriptor index branch =
    codes ",\"kind\":" ++ (json_string (codes "branch") ++ branch_cases_json descriptor index)
stage_kind_json descriptor index fan_in =
    codes ",\"kind\":" ++ (json_string (codes "fan_in") ++ branch_cases_json descriptor index)

unfoldable pub graph_stage_json : DescriptorView → DescriptorStageRecord → Text
graph_stage_json descriptor stage =
    codes "{\"index\":"
    ++ (decimal stage.index
        ++ (codes ",\"key\":"
            ++ (json_string stage.key
                ++ (codes ",\"name\":"
                    ++ (json_string stage.name
                        ++ (stage_kind_json descriptor stage.index stage.topology ++ codes "}"))))))

unfoldable pub graph_edge_json : DescriptorEdgeRecord → Text
graph_edge_json edge =
    codes "{\"index\":"
    ++ (decimal edge.index
        ++ (codes ",\"from_stage_index\":"
            ++ (decimal edge.from_stage_index
                ++ (codes ",\"to_stage_index\":"
                    ++ (decimal edge.to_stage_index
                        ++ (codes ",\"from_key\":"
                            ++ (json_string edge.from_key
                                ++ (codes ",\"from_name\":"
                                    ++ (json_string edge.from_name
                                        ++ (codes ",\"to_key\":"
                                            ++ (json_string edge.to_key
                                                ++ (codes ",\"to_name\":"
                                                    ++ (json_string edge.to_name
                                                        ++ codes "}")))))))))))))

-- `to_json`, of the pipeline's descriptor
unfoldable pub graph_json : DescriptorView → Text
graph_json descriptor =
    codes "{\"schema_version\":\"pb.core.graph.v1\",\"topology\":"
    ++ (json_string (topology_name descriptor.topology)
        ++ (codes ",\"stage_count\":"
            ++ (decimal (length descriptor.stages)
                ++ (codes ",\"edge_count\":"
                    ++ (decimal (length descriptor.edges)
                        ++ (codes ",\"stages\":["
                            ++ (joined (graph_stage_json descriptor) true descriptor.stages
                                ++ (codes "],\"edges\":["
                                    ++ (joined graph_edge_json true descriptor.edges
                                        ++ codes "]}")))))))))
