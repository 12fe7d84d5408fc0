-- ===== src/Verbose.antt =====
-- `verbose_observer` and `verbose_engine` of include/pb/runtime/error_policy.hpp: an observer that
-- writes a line for each event, and an engine that owns one.
pub mod Lines
pub mod Transparent
mod Tests
use pipeline_c.Prelude.{
  ℕ, Bool, true, false, Option, none, some, List, [], ◌∷◌, ◌++◌, codes, Text, is_empty, decimal,
  if◌then◌else◌,
}
use pipeline_c.Error.{StageId, Error, category_name, has_message}
use pipeline_c.Result.{Result}
use pipeline_c.Observer.{
  Event, on_stage_start, on_stage_success, on_stage_failure, on_stage_exception, on_case_selected,
  on_case_skipped, on_case_failed, on_fan_in_started, on_fan_in_case_scheduled,
  on_fan_in_case_completed, on_fan_in_completed, Sink,
}
use pipeline_c.Stage.{Value}
use pipeline_c.Sequential.Engine.{SequentialEngine, try_run}

unfoldable pub format_stage : StageId → Text
format_stage id = if is_empty id.key then id.name else id.key

-- The parts of a line behind its prefix, up to its line feed.
unfoldable pub stage_part : (event : Text) → StageId → Text
stage_part event id = event ++ (codes " stage=" ++ format_stage id)

unfoldable pub error_part : Error → Text
error_part diag =
    codes " category="
    ++ (category_name diag.category
        ++ (if has_message diag then codes " message=" ++ diag.message else []))

unfoldable pub case_part : (event : Text) → StageId → ℕ → StageId → Text
case_part event branch_id case_index predicate_id =
    event
    ++ (codes " branch="
        ++ (format_stage branch_id
            ++ (codes " case="
                ++ (decimal case_index ++ (codes " predicate=" ++ format_stage predicate_id)))))

unfoldable pub branch_part : (event : Text) → StageId → Text
branch_part event branch_id = event ++ (codes " branch=" ++ format_stage branch_id)

unfoldable pub count_part : (field : Text) → ℕ → Text
count_part field n = field ++ decimal n

-- What a handler of `verbose_observer` writes between the prefix and the line feed.
unfoldable pub event_text : Event → Text
event_text (on_stage_start id) = stage_part (codes "stage_start") id
event_text (on_stage_success id) = stage_part (codes "stage_success") id
event_text (on_stage_failure id diag) = stage_part (codes "stage_failure") id ++ error_part diag
event_text (on_stage_exception id diag) = stage_part (codes "stage_exception") id ++ error_part diag
event_text (on_case_selected branch_id case_index predicate_id) =
    case_part (codes "case_selected") branch_id case_index predicate_id
event_text (on_case_skipped branch_id case_index predicate_id) =
    case_part (codes "case_skipped") branch_id case_index predicate_id
event_text (on_case_failed branch_id case_index case_stage_id diag) =
    branch_part (codes "case_failed") branch_id
    ++ (count_part (codes " case=") case_index
        ++ (codes " stage=" ++ (format_stage case_stage_id ++ error_part diag)))
event_text (on_fan_in_started branch_id case_count) =
    branch_part (codes "fan_in_started") branch_id ++ count_part (codes " cases=") case_count
event_text (on_fan_in_case_scheduled branch_id case_index case_stage_id) =
    branch_part (codes "fan_in_case_scheduled") branch_id
    ++ (count_part (codes " case=") case_index ++ (codes " stage=" ++ format_stage case_stage_id))
event_text (on_fan_in_case_completed branch_id case_index case_stage_id success) =
    branch_part (codes "fan_in_case_completed") branch_id
    ++ (count_part (codes " case=") case_index
        ++ (codes " stage="
            ++ (format_stage case_stage_id
                ++ (codes " success=" ++ (if success then codes "true" else codes "false")))))
event_text (on_fan_in_completed branch_id selected_count completed_count failed_count) =
    branch_part (codes "fan_in_completed") branch_id
    ++ (count_part (codes " selected=") selected_count
        ++ (count_part (codes " completed=") completed_count
            ++ count_part (codes " failed=") failed_count))

unfoldable pub event_line : Event → Text
event_line event = codes "[pb.verbose] " ++ event_text event

-- What the observer has written to its stream, if it has one, behind these events.
unfoldable pub write_events : List Event → Text → Text
write_events [] written = written
write_events (event ∷ events) written =
    write_events events (written ++ (event_line event ++ b'\n' ∷ []))

unfoldable pub log : (has_sink : Bool) → List Event → Text
unfolding write_events
log true events = write_events events []
log false events = []

abbrev pub written : (has_sink : Bool) → Sink → Text
written has_sink none = []
written has_sink (some events) = log has_sink events

-- `verbose_engine`: the engine with the observer that it owns, and the observer it had before.
pub record VerboseEngine (S A : Type 0) : Type 0 where
  pub engine : SequentialEngine S A
  pub has_sink : Bool
  pub previous_observer : Sink

module _ {S A : Type 0} where
  -- the constructor, with a new observer
  unfoldable pub with_verbose_diagnostics :
      SequentialEngine S A → (has_sink : Bool) → VerboseEngine S A
  with_verbose_diagnostics engine has_sink = record {
    engine = record engine { observer = some [] };
    has_sink = has_sink;
    previous_observer = engine.observer;
  }

  -- the destructor, which gives the engine its old observer back
  unfoldable pub close : VerboseEngine S A → SequentialEngine S A
  close verbose = record verbose.engine { observer = verbose.previous_observer }

  unfoldable pub verbose_try_run :
      VerboseEngine S A → Value A → Result (Value A) Error × VerboseEngine S A
  verbose_try_run verbose input =
      let (r, engine) = try_run verbose.engine input in (r, record verbose { engine = engine })

  -- what stands in the stream
  unfoldable pub log_of : VerboseEngine S A → Text
  log_of verbose = written verbose.has_sink verbose.engine.observer
