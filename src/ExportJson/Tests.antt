-- ===== src/ExportJson/Tests.antt =====
-- The document of a small graph (include/pb/core/export_json.hpp).
use pipeline_c.Prelude.{◌≡◌, refl, some, [], ◌∷◌, ◌++◌, codes, decimal, digits, arith}
use pipeline_c.Json.Graph.{json_string, escape_bytes, escape_byte}
use pipeline_c.Descriptor.Records.{linear, branch, DescriptorView}
use pipeline_c.ExportJson.{graph_json, topology_name, joined}
use pipeline_c.ExportJson.Reader.{read_graph}
use pipeline_c.ExportJson.Spec.{graph_doc}
use pipeline_c.ExportJson.RoundTrip.{read_graph-graph_json}

abbrev view : DescriptorView
view = record {
  topology = branch;
  stages =
      record {
        index = 0;
        key = codes "a";
        name = codes "say \"a\"";
        input_type_name = codes "int";
        output_type_name = codes "int";
        topology = linear;
      }
      ∷ record {
        index = 1;
        key = codes "branch";
        name = codes "branch";
        input_type_name = codes "int";
        output_type_name = codes "int";
        topology = branch;
      }
      ∷ [];
  edges =
      record {
        index = 0;
        from_stage_index = 0;
        to_stage_index = 1;
        from_key = codes "a";
        from_name = codes "say \"a\"";
        to_key = codes "branch";
        to_name = codes "branch";
        label = [];
      }
      ∷ [];
  branch_cases =
      record {
        branch_stage_index = 1;
        case_index = 0;
        case_id = codes "branch.1.case.0";
        case_key = codes "branch.1.case.0";
        case_label = [];
        predicate_node_id = codes "branch.1.case.0.predicate";
        stage_node_id = codes "branch.1.case.0.stage";
        predicate_key = codes "p";
        predicate_name = codes "p";
        stage_key = codes "s";
        stage_name = codes "s";
        input_type_name = codes "int";
        output_type_name = codes "int";
      }
      ∷ [];
}

no_stages :
    graph_json (record { topology = linear; stages = []; edges = []; branch_cases = [] })
    ≡ codes
        "{\"schema_version\":\"pb.core.graph.v1\",\"topology\":\"linear\",\"stage_count\":0,\"edge_count\":0,\"stages\":[],\"edges\":[]}"
unfolding graph_json topology_name joined json_string escape_bytes escape_byte decimal digits
no_stages = refl

read_graph-graph_json_example :
    read_graph 3 (graph_json view ++ codes "\n") ≡ some (graph_doc view, codes "\n")
read_graph-graph_json_example =
    read_graph-graph_json view 3 (omega arith) (codes "\n") (omega arith) (omega arith)
