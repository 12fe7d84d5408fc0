-- ===== src/Trace.antt =====
-- The trace observer of include/pb/runtime/trace.hpp, its recorder and its NDJSON sink. The events'
-- time stamps, which no writer prints, are left out.
pub mod Ndjson
mod Tests
use pipeline_c.Prelude.{
  ℕ, Bool, true, false, not, ◌||◌, Option, none, some, List, [], ◌∷◌, ◌++◌, codes, Text, decimal,
  ◌==◌, if◌then◌else◌,
}
use pipeline_c.Error.{StageId, Error, category_name}
use pipeline_c.Observer.{
  Event, on_stage_start, on_stage_success, on_stage_failure, on_stage_exception, on_case_selected,
  on_case_skipped, on_case_failed, on_fan_in_started, on_fan_in_case_scheduled,
  on_fan_in_case_completed, on_fan_in_completed,
}
use pipeline_c.Json.Trace.{json_string}

pub data TraceEventKind : Type 0 where
  stage_start stage_success stage_failure stage_exception : TraceEventKind
  case_selected case_skipped case_failed : TraceEventKind
  fan_in_started fan_in_case_scheduled fan_in_case_completed fan_in_completed : TraceEventKind
  pipeline_start pipeline_complete : TraceEventKind

-- `trace_event`; the diagnostic is none where `has_error` is false
pub record TraceEvent : Type 0 where
  pub kind : TraceEventKind
  pub stage_key : Text
  pub stage_name : Text
  pub stage_index : ℕ
  pub case_index : ℕ
  pub case_count : ℕ
  pub selected_count : ℕ
  pub completed_count : ℕ
  pub failed_count : ℕ
  pub success : Bool
  pub diagnostic : Option Error

-- An event with the defaults of its other fields.
abbrev pub event_of : TraceEventKind → StageId → TraceEvent
event_of kind id = record {
  kind = kind;
  stage_key = id.key;
  stage_name = id.name;
  stage_index = 0;
  case_index = 0;
  case_count = 0;
  selected_count = 0;
  completed_count = 0;
  failed_count = 0;
  success = false;
  diagnostic = none;
}

-- What each handler of `trace_observer` passes to `emit`.
unfoldable pub trace_of : Event → TraceEvent
trace_of (on_stage_start id) = event_of stage_start id
trace_of (on_stage_success id) = event_of stage_success id
trace_of (on_stage_failure id diag) = record (event_of stage_failure id) { diagnostic = some diag }
trace_of (on_stage_exception id diag) = record (event_of stage_exception id) {
  diagnostic = some diag;
}
trace_of (on_case_selected branch_id i predicate_id) = record (event_of case_selected branch_id) {
  case_index = i;
}
trace_of (on_case_skipped branch_id i predicate_id) = record (event_of case_skipped branch_id) {
  case_index = i;
}
trace_of (on_case_failed branch_id i case_stage_id diag) = record (event_of case_failed branch_id) {
  case_index = i;
  diagnostic = some diag;
}
trace_of (on_fan_in_started branch_id n) = record (event_of fan_in_started branch_id) {
  case_count = n;
}
trace_of (on_fan_in_case_scheduled branch_id i case_stage_id) =
    record (event_of fan_in_case_scheduled branch_id) { case_index = i }
trace_of (on_fan_in_case_completed branch_id i case_stage_id ended) =
    record (event_of fan_in_case_completed branch_id) { case_index = i; success = ended }
trace_of (on_fan_in_completed branch_id selected completed failed) =
    record (event_of fan_in_completed branch_id) {
      selected_count = selected;
      completed_count = completed;
      failed_count = failed;
    }

unfoldable pub trace_event_kind_name : TraceEventKind → Text
trace_event_kind_name stage_start = codes "stage_start"
trace_event_kind_name stage_success = codes "stage_success"
trace_event_kind_name stage_failure = codes "stage_failure"
trace_event_kind_name stage_exception = codes "stage_exception"
trace_event_kind_name case_selected = codes "case_selected"
trace_event_kind_name case_skipped = codes "case_skipped"
trace_event_kind_name case_failed = codes "case_failed"
trace_event_kind_name fan_in_started = codes "fan_in_started"
trace_event_kind_name fan_in_case_scheduled = codes "fan_in_case_scheduled"
trace_event_kind_name fan_in_case_completed = codes "fan_in_case_completed"
trace_event_kind_name fan_in_completed = codes "fan_in_completed"
trace_event_kind_name pipeline_start = codes "pipeline_start"
trace_event_kind_name pipeline_complete = codes "pipeline_complete"

-- The kinds whose case index is printed although it is 0.
unfoldable pub is_case_kind : TraceEventKind → Bool
is_case_kind stage_start = false
is_case_kind stage_success = false
is_case_kind stage_failure = false
is_case_kind stage_exception = false
is_case_kind case_selected = true
is_case_kind case_skipped = true
is_case_kind case_failed = true
is_case_kind fan_in_started = false
is_case_kind fan_in_case_scheduled = true
is_case_kind fan_in_case_completed = true
is_case_kind fan_in_completed = false
is_case_kind pipeline_start = false
is_case_kind pipeline_complete = false

unfoldable pub stage_json : TraceEvent → Text
stage_json event =
    codes "{\"key\":"
    ++ (json_string event.stage_key
        ++ (codes ",\"name\":"
            ++ (json_string event.stage_name
                ++ (codes ",\"stage_index\":"
                    ++ (decimal event.stage_index
                        ++ ((if not (event.case_index == 0) || is_case_kind event.kind
                              then codes ",\"case_index\":" ++ decimal event.case_index
                              else [])
                            ++ codes "}"))))))

unfoldable pub error_json : Error → Text
error_json e =
    codes "{\"stage\":{\"key\":"
    ++ (json_string e.stage.key
        ++ (codes ",\"name\":"
            ++ (json_string e.stage.name
                ++ (codes "},\"category\":"
                    ++ (json_string (category_name e.category)
                        ++ (codes ",\"message\":" ++ (json_string e.message ++ codes "}")))))))

-- What is printed of the counts.
unfoldable pub counts_json : TraceEventKind → TraceEvent → Text
counts_json stage_start event = []
counts_json stage_success event = []
counts_json stage_failure event = []
counts_json stage_exception event = []
counts_json case_selected event = []
counts_json case_skipped event = []
counts_json case_failed event = []
counts_json fan_in_started event = codes ",\"case_count\":" ++ decimal event.case_count
counts_json fan_in_case_scheduled event = []
counts_json fan_in_case_completed event =
    codes ",\"success\":" ++ (if event.success then codes "true" else codes "false")
counts_json fan_in_completed event =
    codes ",\"selected_count\":"
    ++ (decimal event.selected_count
        ++ (codes ",\"completed_count\":"
            ++ (decimal event.completed_count
                ++ (codes ",\"failed_count\":" ++ decimal event.failed_count))))
counts_json pipeline_start event = []
counts_json pipeline_complete event = []

unfoldable pub diagnostic_json : Option Error → Text
diagnostic_json none = []
diagnostic_json (some e) = codes ",\"error\":" ++ error_json e

-- `append_trace_event_json`
unfoldable pub trace_event_json : TraceEvent → Text
trace_event_json event =
    codes "{\"kind\":"
    ++ (json_string (trace_event_kind_name event.kind)
        ++ (codes ",\"stage\":"
            ++ (stage_json event
                ++ (counts_json event.kind event
                    ++ (diagnostic_json event.diagnostic ++ codes "}")))))

-- What a `tracing_sink` has written to its stream behind these events.
unfoldable pub ndjson : List Event → Text → Text
ndjson [] written = written
ndjson (event ∷ events) written =
    ndjson events (written ++ (trace_event_json (trace_of event) ++ b'\n' ∷ []))
