-- ===== src/Error/Tests.antt =====
-- Errors and JSON strings at concrete values.
use pipeline_c.Prelude.{◌≡◌, ◌↔◌, true, refl, [], ◌∷◌, ◌++◌, some, codes, text_eq}
use pipeline_c.Error.{
  Error, exception, category_name, describe_stage, describe, has_stage, has_message, to_record,
  record_to_json, to_json,
}
use pipeline_c.Error.JsonRoundTrip.{read_error, read_error-to_json}
use pipeline_c.Json.Divergence.{trace_json_string-agree}
use pipeline_c.Json.Runtime.{json_string}
use pipeline_c.Json.Trace.{escape_code, escape_codes, has_no_raw_control}
use pipeline_c.Json.Trace

abbrev parse_failure : Error
parse_failure = record {
  stage = record { key = codes "parse"; name = codes "Parse" };
  category = exception;
  message = codes "bad \"x\"";
}

parse_failure_line : describe parse_failure ≡ codes "exception at Parse (parse): bad \"x\""
unfolding describe describe_stage has_stage has_message category_name text_eq
parse_failure_line = refl

parse_failure_json :
    to_json parse_failure
    ≡ codes
        "{\"schema_version\":\"pb.error.v1\",\"stage\":{\"key\":\"parse\",\"name\":\"Parse\"},\"category\":\"exception\",\"message\":\"bad \\\"x\\\"\"}"
unfolding to_json to_record record_to_json json_string category_name
parse_failure_json = refl

control_byte : json_string (31 ∷ []) ≡ codes "\"\\u001f\""
unfolding json_string
control_byte = refl

-- The byte 1 stands in the trace's text as it is, where JSON has an escape for it.
trace_control : Trace.json_string (1 ∷ []) ≡ b'"' ∷ 1 ∷ b'"' ∷ []
unfolding Trace.json_string escape_codes escape_code
trace_control = refl

trace_json_string-agree_example :
    (Trace.json_string (b'a' ∷ b'\n' ∷ []) ≡ json_string (b'a' ∷ b'\n' ∷ []))
    ↔ (has_no_raw_control (b'a' ∷ b'\n' ∷ []) ≡ true)
trace_json_string-agree_example = trace_json_string-agree (b'a' ∷ b'\n' ∷ [])

read_error-to_json_example :
    read_error (to_json parse_failure ++ codes "\n") ≡ some (parse_failure, codes "\n")
read_error-to_json_example = read_error-to_json parse_failure (codes "\n")
