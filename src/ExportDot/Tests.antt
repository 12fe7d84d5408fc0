-- ===== src/ExportDot/Tests.antt =====
-- The DOT form of a small graph (include/pb/core/export_dot.hpp).
use pipeline_c.Prelude.{◌≡◌, ◌↔◌, refl, some, true, [], ◌∷◌, ◌++◌, codes}
use pipeline_c.Descriptor.Records.{linear, DescriptorView}
use pipeline_c.ExportDot.{
  is_digit, is_identifier_code, sanitize_code, sanitize_codes, sanitize_front, sanitize_identifier,
  dot_label,
}
use pipeline_c.ExportDot.Names.{is_plain_name, sanitize_identifier-valid}
use pipeline_c.ExportDot.Labels.{read_label, read_label-dot_label}

abbrev view : DescriptorView
view = record {
  topology = linear;
  stages =
      record {
        index = 0;
        key = codes "a";
        name = codes "first";
        input_type_name = codes "int";
        output_type_name = codes "int";
        topology = linear;
      }
      ∷ record {
        index = 1;
        key = codes "b";
        name = codes "b";
        input_type_name = codes "int";
        output_type_name = codes "int";
        topology = linear;
      }
      ∷ [];
  edges =
      record {
        index = 0;
        from_stage_index = 0;
        to_stage_index = 1;
        from_key = codes "a";
        from_name = codes "first";
        to_key = codes "b";
        to_name = codes "b";
        label = [];
      }
      ∷ [];
  branch_cases = [];
}

sanitized : sanitize_identifier (codes "2nd-graph") ≡ codes "_nd_graph"
unfolding sanitize_identifier sanitize_front sanitize_codes sanitize_code is_identifier_code
    is_digit
sanitized = refl

empty_name : sanitize_identifier [] ≡ codes "pipeline"
unfolding sanitize_identifier sanitize_front sanitize_codes
empty_name = refl

sanitize_identifier-valid_example :
    (is_plain_name (sanitize_identifier (codes "2nd-graph")) ≡ true)
    × ((sanitize_identifier (codes "2nd-graph") ≡ codes "2nd-graph")
        ↔ (is_plain_name (codes "2nd-graph") ≡ true))
sanitize_identifier-valid_example = sanitize_identifier-valid (codes "2nd-graph")

label_read_back :
    read_label (dot_label (codes "say \"a\"\n") ++ codes "];")
    ≡ some (codes "say \"a\"\n", codes "];")
label_read_back = read_label-dot_label (codes "say \"a\"\n") (codes "];")
