-- ===== src/FanInError/Tests.antt =====
-- The failed cases of a fan-in, collected and reported, and the theorems at them.
use pipeline_c.Prelude.{
  ℕ, ◌≡◌, refl, some, none, List, [], ◌∷◌, ◌++◌, codes, decimal, length, map, text_eq, no_newline,
  split_lines, literal,
}
use pipeline_c.Error.{category_name, has_stage, has_message, describe_stage, describe}
use pipeline_c.Stage.{FanInCaseResult, skipped, completed, failed}
use pipeline_c.Sequential.Settling.{is_failed}
use pipeline_c.FanInError.{
  FanInErrorEnvelope, case_line, case_lines, format, fan_in_case_stage_id, diagnostic_message,
  case_error, collect_fan_in_errors, fan_in_error_schema_version,
}
use pipeline_c.FanInError.Collect.{keep_if, collect_fan_in_errors-eq}
use pipeline_c.FanInError.Report.{OneLine, split_lines-format}

abbrev slots : List (FanInCaseResult ℕ)
slots =
    record { index = 0; state = completed; value = some 60; diagnostic = none }
    ∷ record { index = 1; state = failed; value = none; diagnostic = some (codes "late") }
    ∷ record { index = 2; state = skipped; value = none; diagnostic = none }
    ∷ record { index = 3; state = failed; value = none; diagnostic = some (codes "boom") }
    ∷ []

abbrev boom_slot : FanInCaseResult ℕ
boom_slot = record { index = 3; state = failed; value = none; diagnostic = some (codes "boom") }

abbrev errors : FanInErrorEnvelope
errors = case_error boom_slot ∷ []

report_text :
    format errors
    ≡ codes
        "pb.fan_in.errors.v1\nfailures=1\ncase[3] stage=case 3 (fan_in.case.3) :: stage_failure at case 3 (fan_in.case.3): boom"
unfolding format case_lines case_line decimal describe describe_stage has_stage has_message
    category_name text_eq case_error diagnostic_message fan_in_case_stage_id
report_text = refl

collect_fan_in_errors-eq_example :
    collect_fan_in_errors slots ≡ map case_error (keep_if is_failed slots)
collect_fan_in_errors-eq_example = collect_fan_in_errors-eq slots

third_stage : OneLine (fan_in_case_stage_id 3)
unfolding fan_in_case_stage_id decimal no_newline
third_stage = record { key = literal _ refl; name = literal _ refl }

split_lines-format_example :
    split_lines (format errors)
    ≡ fan_in_error_schema_version
      ∷ (codes "failures=" ++ decimal (length errors))
      ∷ map case_line errors
unfolding case_error diagnostic_message no_newline
split_lines-format_example =
    split_lines-format errors
      (record { stage = third_stage; failed_stage = third_stage; message = literal _ refl }, tt)
