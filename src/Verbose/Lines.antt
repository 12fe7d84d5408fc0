-- ===== src/Verbose/Lines.antt =====
-- The log of `verbose_observer` in include/pb/runtime/error_policy.hpp, line by line.
use pipeline_c.Prelude.{
  ℕ, ◌≡◌, refl, ap, sym, ◌∙◌, true, List, [], ◌∷◌, ◌++◌, append-nil, append_assoc, map, All, Text,
  codes, is_empty, no_newline, split_lines, split_lines-newline, IsLine, literal, append-IsLine,
  if-IsLine, decimal-IsLine,
}
use pipeline_c.Error.{StageId, Error, has_message}
use pipeline_c.Observer.{
  Event, on_stage_start, on_stage_success, on_stage_failure, on_stage_exception, on_case_selected,
  on_case_skipped, on_case_failed, on_fan_in_started, on_fan_in_case_scheduled,
  on_fan_in_case_completed, on_fan_in_completed,
}
use pipeline_c.FanInError.Report.{OneLine, category_name-IsLine}
use pipeline_c.Verbose.{
  format_stage, stage_part, error_part, case_part, branch_part, count_part, event_text, event_line,
  write_events, log,
}

-- An event whose texts have no line feed.
unfoldable pub IsPlain : Event → Type 0
IsPlain (on_stage_start id) = OneLine id
IsPlain (on_stage_success id) = OneLine id
IsPlain (on_stage_failure id diag) = OneLine id × IsLine diag.message
IsPlain (on_stage_exception id diag) = OneLine id × IsLine diag.message
IsPlain (on_case_selected branch_id case_index predicate_id) =
    OneLine branch_id × OneLine predicate_id
IsPlain (on_case_skipped branch_id case_index predicate_id) =
    OneLine branch_id × OneLine predicate_id
IsPlain (on_case_failed branch_id case_index case_stage_id diag) =
    OneLine branch_id × OneLine case_stage_id × IsLine diag.message
IsPlain (on_fan_in_started branch_id case_count) = OneLine branch_id
IsPlain (on_fan_in_case_scheduled branch_id case_index case_stage_id) =
    OneLine branch_id × OneLine case_stage_id
IsPlain (on_fan_in_case_completed branch_id case_index case_stage_id success) =
    OneLine branch_id × OneLine case_stage_id
IsPlain (on_fan_in_completed branch_id selected_count completed_count failed_count) =
    OneLine branch_id

format_stage-IsLine : (id : StageId) → OneLine id → IsLine (format_stage id)
unfolding format_stage
format_stage-IsLine id h = if-IsLine (is_empty id.key) h.name h.key

stage_part-IsLine :
    (event : Text) (id : StageId) → IsLine event → OneLine id → IsLine (stage_part event id)
unfolding stage_part no_newline
stage_part-IsLine event id e h =
    append-IsLine e (append-IsLine (literal (codes " stage=") refl) (format_stage-IsLine id h))

error_part-IsLine : (diag : Error) → IsLine diag.message → IsLine (error_part diag)
unfolding error_part no_newline
error_part-IsLine diag h = append-IsLine (literal (codes " category=") refl) (
    append-IsLine (category_name-IsLine diag.category) (
      if-IsLine (has_message diag) (append-IsLine (literal (codes " message=") refl) h)
        (literal [] refl)))

branch_part-IsLine :
    (event : Text) (id : StageId) → IsLine event → OneLine id → IsLine (branch_part event id)
unfolding branch_part no_newline
branch_part-IsLine event id e h =
    append-IsLine e (append-IsLine (literal (codes " branch=") refl) (format_stage-IsLine id h))

count_part-IsLine : (field : Text) (n : ℕ) → IsLine field → IsLine (count_part field n)
unfolding count_part
count_part-IsLine field n h = append-IsLine h (decimal-IsLine n)

case_part-IsLine :
    (event : Text) (b : StageId) (i : ℕ) (p : StageId)
    → IsLine event
    → OneLine b
    → OneLine p
    → IsLine (case_part event b i p)
unfolding case_part no_newline
case_part-IsLine event b i p e h k = append-IsLine e (
    append-IsLine (literal (codes " branch=") refl) (
      append-IsLine (format_stage-IsLine b h) (
        append-IsLine (literal (codes " case=") refl) (
          append-IsLine (decimal-IsLine i)
            (append-IsLine (literal (codes " predicate=") refl) (format_stage-IsLine p k))))))

stage_field-IsLine : (id : StageId) → OneLine id → IsLine (codes " stage=" ++ format_stage id)
unfolding no_newline
stage_field-IsLine id h = append-IsLine (literal (codes " stage=") refl) (format_stage-IsLine id h)

event_text-IsLine : (event : Event) → IsPlain event → IsLine (event_text event)
unfolding IsPlain event_text no_newline
event_text-IsLine (on_stage_start id) h =
    stage_part-IsLine (codes "stage_start") id (literal _ refl) h
event_text-IsLine (on_stage_success id) h =
    stage_part-IsLine (codes "stage_success") id (literal _ refl) h
event_text-IsLine (on_stage_failure id diag) (h, k) =
    append-IsLine (stage_part-IsLine (codes "stage_failure") id (literal _ refl) h)
      (error_part-IsLine diag k)
event_text-IsLine (on_stage_exception id diag) (h, k) =
    append-IsLine (stage_part-IsLine (codes "stage_exception") id (literal _ refl) h)
      (error_part-IsLine diag k)
event_text-IsLine (on_case_selected b i p) (h, k) =
    case_part-IsLine (codes "case_selected") b i p (literal _ refl) h k
event_text-IsLine (on_case_skipped b i p) (h, k) =
    case_part-IsLine (codes "case_skipped") b i p (literal _ refl) h k
event_text-IsLine (on_case_failed b i c diag) (h, k, l) =
    append-IsLine (branch_part-IsLine (codes "case_failed") b (literal _ refl) h) (
      append-IsLine (count_part-IsLine (codes " case=") i (literal _ refl)) (
        append-IsLine (literal (codes " stage=") refl)
          (append-IsLine (format_stage-IsLine c k) (error_part-IsLine diag l))))
event_text-IsLine (on_fan_in_started b n) h =
    append-IsLine (branch_part-IsLine (codes "fan_in_started") b (literal _ refl) h)
      (count_part-IsLine (codes " cases=") n (literal _ refl))
event_text-IsLine (on_fan_in_case_scheduled b i c) (h, k) =
    append-IsLine (branch_part-IsLine (codes "fan_in_case_scheduled") b (literal _ refl) h) (
      append-IsLine (count_part-IsLine (codes " case=") i (literal _ refl))
        (stage_field-IsLine c k))
event_text-IsLine (on_fan_in_case_completed b i c success) (h, k) =
    append-IsLine (branch_part-IsLine (codes "fan_in_case_completed") b (literal _ refl) h) (
      append-IsLine (count_part-IsLine (codes " case=") i (literal _ refl)) (
        append-IsLine (literal (codes " stage=") refl) (
          append-IsLine (format_stage-IsLine c k) (
            append-IsLine (literal (codes " success=") refl)
              (if-IsLine success (literal (codes "true") refl) (literal (codes "false") refl))))))
event_text-IsLine (on_fan_in_completed b s c f) h =
    append-IsLine (branch_part-IsLine (codes "fan_in_completed") b (literal _ refl) h) (
      append-IsLine (count_part-IsLine (codes " selected=") s (literal _ refl)) (
        append-IsLine (count_part-IsLine (codes " completed=") c (literal _ refl))
          (count_part-IsLine (codes " failed=") f (literal _ refl))))

event_line-IsLine : (event : Event) → IsPlain event → IsLine (event_line event)
unfolding event_line no_newline
event_line-IsLine event h =
    append-IsLine (literal (codes "[pb.verbose] ") refl) (event_text-IsLine event h)

-- The lines of a text that grows by whole lines.
whole_lines : List Event → Text
whole_lines [] = []
whole_lines (event ∷ events) = event_line event ++ b'\n' ∷ whole_lines events

write_events-eq :
    (events : List Event) (written : Text)
    → write_events events written ≡ written ++ whole_lines events
unfolding write_events whole_lines
write_events-eq [] written = sym (append-nil written)
write_events-eq (event ∷ events) written =
    write_events-eq events (written ++ (event_line event ++ b'\n' ∷ []))
    ∙ append_assoc written (event_line event ++ b'\n' ∷ []) (whole_lines events)
    ∙ ap (λ x. written ++ x) (append_assoc (event_line event) (b'\n' ∷ []) (whole_lines events))

split_lines-whole_lines :
    (events : List Event)
    → All IsPlain events
    → split_lines (whole_lines events) ≡ map event_line events ++ [] ∷ []
unfolding whole_lines split_lines
split_lines-whole_lines [] h = refl
split_lines-whole_lines (event ∷ events) (plain, others) =
    split_lines-newline (event_line event) (whole_lines events)
      (event_line-IsLine event plain).holds
    ∙ ap (λ x. event_line event ∷ x) (split_lines-whole_lines events others)

-- If no text of an event has a line feed, then the log holds exactly one line for each event, in
-- their order, each with its line feed.
pub split_lines-log :
    (events : List Event)
    → All IsPlain events
    → split_lines (log true events) ≡ map event_line events ++ [] ∷ []
unfolding log
split_lines-log events h =
    ap split_lines (write_events-eq events []) ∙ split_lines-whole_lines events h
