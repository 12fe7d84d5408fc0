-- ===== src/Trace/Ndjson.antt =====
-- The stream of the NDJSON sink of include/pb/runtime/trace.hpp, line by line.
use pipeline_c.Prelude.{
  ℕ, ◌≡◌, refl, ap, sym, ◌∙◌, true, not, ◌||◌, Option, none, some, List, [], ◌∷◌, ◌++◌, append-nil,
  append_assoc, map, Text, codes, arith, ◌==◌, no_newline, split_lines, split_lines-newline, IsLine,
  literal, append-IsLine, if-IsLine, decimal-IsLine,
}
use pipeline_c.Error.{Error, category_name}
use pipeline_c.Observer.{Event}
use pipeline_c.Json.Trace.{escape_code, escape_codes, json_string}
use pipeline_c.Trace.{
  TraceEventKind, stage_start, stage_success, stage_failure, stage_exception, case_selected,
  case_skipped, case_failed, fan_in_started, fan_in_case_scheduled, fan_in_case_completed,
  fan_in_completed, pipeline_start, pipeline_complete, TraceEvent, trace_of, trace_event_kind_name,
  is_case_kind, stage_json, error_json, counts_json, diagnostic_json, trace_event_json, ndjson,
}

no_newline-escape_code : (ch : ℕ) → no_newline (escape_code ch) ≡ true
unfolding escape_code no_newline
no_newline-escape_code ch = ground arith

escape_codes-IsLine : (value : Text) → IsLine (escape_codes value)
unfolding escape_codes no_newline
escape_codes-IsLine [] = literal [] refl
escape_codes-IsLine (ch ∷ value) =
    append-IsLine (literal (escape_code ch) (no_newline-escape_code ch)) (escape_codes-IsLine value)

-- Line feeds are escaped, so that no value breaks a line.
json_string-IsLine : (value : Text) → IsLine (json_string value)
unfolding json_string no_newline
json_string-IsLine value =
    append-IsLine (literal (codes "\"") refl)
      (append-IsLine (escape_codes-IsLine value) (literal (codes "\"") refl))

kind_name-IsLine : (kind : TraceEventKind) → IsLine (trace_event_kind_name kind)
unfolding trace_event_kind_name no_newline
kind_name-IsLine stage_start = literal _ refl
kind_name-IsLine stage_success = literal _ refl
kind_name-IsLine stage_failure = literal _ refl
kind_name-IsLine stage_exception = literal _ refl
kind_name-IsLine case_selected = literal _ refl
kind_name-IsLine case_skipped = literal _ refl
kind_name-IsLine case_failed = literal _ refl
kind_name-IsLine fan_in_started = literal _ refl
kind_name-IsLine fan_in_case_scheduled = literal _ refl
kind_name-IsLine fan_in_case_completed = literal _ refl
kind_name-IsLine fan_in_completed = literal _ refl
kind_name-IsLine pipeline_start = literal _ refl
kind_name-IsLine pipeline_complete = literal _ refl

-- A label with a value behind it.
labelled : (label : Text) {t : Text} → no_newline label ≡ true → IsLine t → IsLine (label ++ t)
labelled label h k = append-IsLine (literal label h) k

field-IsLine :
    (label value : Text) {t : Text}
    → no_newline label ≡ true
    → IsLine t
    → IsLine (label ++ (json_string value ++ t))
field-IsLine label value h k = labelled label h (append-IsLine (json_string-IsLine value) k)

stage_json-IsLine : (event : TraceEvent) → IsLine (stage_json event)
unfolding stage_json no_newline
stage_json-IsLine event = field-IsLine (codes "{\"key\":") event.stage_key refl (
    field-IsLine (codes ",\"name\":") event.stage_name refl (
      labelled (codes ",\"stage_index\":") refl (
        append-IsLine (decimal-IsLine event.stage_index) (
          append-IsLine
            (if-IsLine (not (event.case_index == 0) || is_case_kind event.kind)
              (labelled (codes ",\"case_index\":") refl (decimal-IsLine event.case_index))
              (literal [] refl))
            (literal (codes "}") refl)))))

error_json-IsLine : (e : Error) → IsLine (error_json e)
unfolding error_json no_newline
error_json-IsLine e = field-IsLine (codes "{\"stage\":{\"key\":") e.stage.key refl (
    field-IsLine (codes ",\"name\":") e.stage.name refl (
      field-IsLine (codes "},\"category\":") (category_name e.category) refl
        (field-IsLine (codes ",\"message\":") e.message refl (literal (codes "}") refl))))

counts_json-IsLine : (kind : TraceEventKind) (event : TraceEvent) → IsLine (counts_json kind event)
unfolding counts_json no_newline
counts_json-IsLine stage_start event = literal [] refl
counts_json-IsLine stage_success event = literal [] refl
counts_json-IsLine stage_failure event = literal [] refl
counts_json-IsLine stage_exception event = literal [] refl
counts_json-IsLine case_selected event = literal [] refl
counts_json-IsLine case_skipped event = literal [] refl
counts_json-IsLine case_failed event = literal [] refl
counts_json-IsLine fan_in_started event =
    labelled (codes ",\"case_count\":") refl (decimal-IsLine event.case_count)
counts_json-IsLine fan_in_case_scheduled event = literal [] refl
counts_json-IsLine fan_in_case_completed event =
    labelled (codes ",\"success\":") refl
      (if-IsLine event.success (literal (codes "true") refl) (literal (codes "false") refl))
counts_json-IsLine fan_in_completed event = labelled (codes ",\"selected_count\":") refl (
    append-IsLine (decimal-IsLine event.selected_count) (
      labelled (codes ",\"completed_count\":") refl (
        append-IsLine (decimal-IsLine event.completed_count)
          (labelled (codes ",\"failed_count\":") refl (decimal-IsLine event.failed_count)))))
counts_json-IsLine pipeline_start event = literal [] refl
counts_json-IsLine pipeline_complete event = literal [] refl

diagnostic_json-IsLine : (e : Option Error) → IsLine (diagnostic_json e)
unfolding diagnostic_json no_newline
diagnostic_json-IsLine none = literal [] refl
diagnostic_json-IsLine (some e) = labelled (codes ",\"error\":") refl (error_json-IsLine e)

trace_event_json-IsLine : (event : TraceEvent) → IsLine (trace_event_json event)
unfolding trace_event_json no_newline
trace_event_json-IsLine event =
    field-IsLine (codes "{\"kind\":") (trace_event_kind_name event.kind) refl (
      labelled (codes ",\"stage\":") refl (
        append-IsLine (stage_json-IsLine event) (
          append-IsLine (counts_json-IsLine event.kind event)
            (append-IsLine (diagnostic_json-IsLine event.diagnostic) (literal (codes "}") refl)))))

-- The record that is printed for an event.
abbrev pub line_of : Event → Text
line_of event = trace_event_json (trace_of event)

-- The lines of a text that grows by whole lines.
whole_lines : List Event → Text
whole_lines [] = []
whole_lines (event ∷ events) = line_of event ++ b'\n' ∷ whole_lines events

ndjson-eq :
    (events : List Event) (written : Text) → ndjson events written ≡ written ++ whole_lines events
unfolding ndjson whole_lines
ndjson-eq [] written = sym (append-nil written)
ndjson-eq (event ∷ events) written =
    ndjson-eq events (written ++ (line_of event ++ b'\n' ∷ []))
    ∙ append_assoc written (line_of event ++ b'\n' ∷ []) (whole_lines events)
    ∙ ap (λ x. written ++ x) (append_assoc (line_of event) (b'\n' ∷ []) (whole_lines events))

split_lines-whole_lines :
    (events : List Event) → split_lines (whole_lines events) ≡ map line_of events ++ [] ∷ []
unfolding whole_lines split_lines
split_lines-whole_lines [] = refl
split_lines-whole_lines (event ∷ events) =
    split_lines-newline (line_of event) (whole_lines events)
      (trace_event_json-IsLine (trace_of event)).holds
    ∙ ap (λ x. line_of event ∷ x) (split_lines-whole_lines events)

-- Whatever texts the events have, the NDJSON stream holds exactly one line for each event, in their
-- order, each with its line feed.
pub split_lines-ndjson :
    (events : List Event) → split_lines (ndjson events []) ≡ map line_of events ++ [] ∷ []
split_lines-ndjson events = ap split_lines (ndjson-eq events []) ∙ split_lines-whole_lines events
