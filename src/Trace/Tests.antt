-- ===== src/Trace/Tests.antt =====
-- The NDJSON stream of two events.
use pipeline_c.Prelude.{◌≡◌, refl, List, [], ◌∷◌, ◌++◌, codes, map, decimal, split_lines}
use pipeline_c.Error.{StageId, ErrorCategory, category_name}
use pipeline_c.Observer.{Event, on_stage_failure, on_case_selected}
use pipeline_c.Json.Trace.{escape_code, escape_codes, json_string}
use pipeline_c.Trace.{
  trace_of, trace_event_kind_name, is_case_kind, stage_json, error_json, counts_json,
  diagnostic_json, trace_event_json, ndjson,
}
use pipeline_c.Trace.Ndjson.{line_of, split_lines-ndjson}

abbrev load : StageId
load = record { key = codes "load"; name = codes "Load" }

abbrev events : List Event
events =
    on_case_selected load 0 load
    ∷ on_stage_failure load
        (record { stage = load; category = ErrorCategory.stage_failure; message = codes "a\nb" })
    ∷ []

stream :
    ndjson events []
    ≡ codes
        "{\"kind\":\"case_selected\",\"stage\":{\"key\":\"load\",\"name\":\"Load\",\"stage_index\":0,\"case_index\":0}}\n{\"kind\":\"stage_failure\",\"stage\":{\"key\":\"load\",\"name\":\"Load\",\"stage_index\":0},\"error\":{\"stage\":{\"key\":\"load\",\"name\":\"Load\"},\"category\":\"stage_failure\",\"message\":\"a\\nb\"}}\n"
unfolding ndjson trace_event_json trace_of trace_event_kind_name stage_json is_case_kind counts_json
    diagnostic_json error_json json_string escape_codes escape_code category_name decimal
stream = refl

split_lines-ndjson_example : split_lines (ndjson events []) ≡ map line_of events ++ [] ∷ []
split_lines-ndjson_example = split_lines-ndjson events
