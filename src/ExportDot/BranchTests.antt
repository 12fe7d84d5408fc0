-- ===== src/ExportDot/BranchTests.antt =====
-- The DOT document of a pipeline with a fan-in (include/pb/core/export_dot.hpp).
use pipeline_c.Prelude.{◌≡◌, refl, some, codes, Text, All, if◌then◌else◌, decimal, digits, arith}
use pipeline_c.Descriptor.Records.{DescriptorView}
use pipeline_c.Descriptor.{
  branch_case_count_or_zero, total_branch_case_count, case_record_of, make_descriptor,
}
use pipeline_c.Descriptor.Room.{identity_of}
use pipeline_c.Sample.Pipelines.{int_name, small_case, two_stages}
use pipeline_c.ExportDot.{dot_label, escape_dot_label, escape_code}
use pipeline_c.ExportDot.Branches.{cluster_label, branch_case_subgraph}
use pipeline_c.ExportDot.Ways.{to_dot}
use pipeline_c.ExportDot.Statements.{statements}
use pipeline_c.ExportDot.Graph.{has_split, graph}
use pipeline_c.ExportDot.Joined.{Joins}
use pipeline_c.ExportDot.Linear.{linear_graph}
use pipeline_c.ExportDot.Whole.{to_dot-graph, to_dot-Joins}

small_subgraph :
    branch_case_subgraph (case_record_of int_name 1 0 small_case (identity_of 1 0))
    ≡ codes
        "  subgraph cluster_case_1_0 {\n    label=\"Case small: small\";\n    pred_1_0 [label=\"pred: small\"];\n    case_1_0 [label=\"double\"];\n    branch_1 -> pred_1_0 [style=dashed, label=\"test\"];\n    pred_1_0 -> case_1_0;\n  }\n"
unfolding branch_case_subgraph cluster_label case_record_of dot_label escape_dot_label escape_code
    decimal digits
small_subgraph = refl

few_cases : total_branch_case_count two_stages ≡ 2
unfolding total_branch_case_count branch_case_count_or_zero
few_cases = refl

abbrev drawn :
    (view : DescriptorView) × (text : Text) × (make_descriptor int_name two_stages ≡ some view)
    × (to_dot int_name (codes "g") two_stages ≡ some text)
    × (statements text ≡ (if has_split view.stages then graph view else linear_graph view))
drawn = to_dot-graph int_name (codes "g") two_stages (omega arith) (omega (arith, few_cases))

to_dot-graph_example :
    (view : DescriptorView) × (text : Text) × (make_descriptor int_name two_stages ≡ some view)
    × (to_dot int_name (codes "g") two_stages ≡ some text)
    × (statements text ≡ (if has_split view.stages then graph view else linear_graph view))
to_dot-graph_example =
    to_dot-graph int_name (codes "g") two_stages (omega arith) (omega (arith, few_cases))

to_dot-Joins_example : All (Joins (statements drawn.1)) (statements drawn.1)
to_dot-Joins_example =
    to_dot-Joins int_name (codes "g") two_stages drawn.1 (omega arith) (omega (arith, few_cases))
      drawn.3
