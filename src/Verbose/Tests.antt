-- ===== src/Verbose/Tests.antt =====
-- The lines of a short log, and the theorems at a run of a small pipeline.
use pipeline_c.Prelude.{
  ℕ, ◌≡◌, refl, true, none, List, [], ◌∷◌, ◌++◌, codes, Text, map, decimal, no_newline, split_lines,
  literal,
}
use pipeline_c.Error.{StageId, Error, stage_failure, category_name, has_message}
use pipeline_c.Observer.{Event, on_stage_start, on_stage_failure, on_fan_in_completed}
use pipeline_c.Stage.{stage, fan_in_branch, atom, construct_stages_per_run}
use pipeline_c.Sequential.Engine.{SequentialEngine, try_run}
use pipeline_c.Sample.{double, node}
use pipeline_c.FanInError.Report.{OneLine}
use pipeline_c.Verbose.{
  format_stage, stage_part, error_part, branch_part, count_part, event_text, event_line,
  write_events, log, with_verbose_diagnostics, close, verbose_try_run,
}
use pipeline_c.Verbose.Lines.{IsPlain, split_lines-log}
use pipeline_c.Verbose.Transparent.{verbose_try_run-transparent}

abbrev parse : StageId
parse = record { key = codes "parse"; name = codes "Parse" }

abbrev late : Text → Error
late message = record { stage = parse; category = stage_failure; message = message }

abbrev events : List Event
events =
    on_stage_start parse
    ∷ on_stage_failure parse (late (codes "late"))
    ∷ on_fan_in_completed parse 2 1 1
    ∷ []

log_text :
    log true events
    ≡ codes
        "[pb.verbose] stage_start stage=parse\n[pb.verbose] stage_failure stage=parse category=stage_failure message=late\n[pb.verbose] fan_in_completed branch=parse selected=2 completed=1 failed=1\n"
unfolding log write_events event_line event_text stage_part error_part branch_part count_part
    format_stage category_name has_message decimal
log_text = refl

-- A message of two lines gives a line without the prefix.
split_message :
    split_lines (log true (on_stage_failure parse (late (codes "a\nb")) ∷ []))
    ≡ codes "[pb.verbose] stage_failure stage=parse category=stage_failure message=a"
      ∷ codes "b"
      ∷ []
      ∷ []
unfolding split_lines log write_events event_line event_text stage_part error_part format_stage
    category_name has_message
split_message = refl

parse_line : OneLine parse
unfolding no_newline
parse_line = record { key = literal _ refl; name = literal _ refl }

split_lines-log_example : split_lines (log true events) ≡ map event_line events ++ [] ∷ []
unfolding IsPlain no_newline
split_lines-log_example =
    split_lines-log events (parse_line, ((parse_line, literal _ refl), (parse_line, tt)))

abbrev engine : SequentialEngine ℕ ℕ
engine = record {
  policy = construct_stages_per_run;
  stages = stage double ∷ fan_in_branch node ∷ [];
  observer = none;
}

verbose_try_run-transparent_example :
    ((verbose_try_run (with_verbose_diagnostics engine true) (atom 3)).0
      ≡ (try_run engine (atom 3)).0)
    × ((close (verbose_try_run (with_verbose_diagnostics engine true) (atom 3)).1).stages
        ≡ (try_run engine (atom 3)).1.stages)
    × ((close (verbose_try_run (with_verbose_diagnostics engine true) (atom 3)).1).observer ≡ none)
verbose_try_run-transparent_example = verbose_try_run-transparent engine (atom 3) true
