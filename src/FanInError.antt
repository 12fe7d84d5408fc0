-- ===== src/FanInError.antt =====
-- include/pb/runtime/fan_in_error.hpp: the failed cases of a fan-in, collected from its slots, and
-- the report of them.
pub mod Collect
pub mod Report
mod Tests
use pipeline_c.Prelude.{
  ℕ, Option, none, some, List, [], ◌∷◌, ◌++◌, length, codes, Text, decimal, if◌then◌else◌,
}
use pipeline_c.Error.{stage_failure, StageId, Error, describe_stage, describe}
use pipeline_c.Stage.{FanInCaseResult}
use pipeline_c.Sequential.Settling.{is_failed}

abbrev pub fan_in_error_schema_version : Text
fan_in_error_schema_version = codes "pb.fan_in.errors.v1"

-- `fan_in_case_error`
pub record FanInCaseError : Type 0 where
  pub case_index : ℕ
  pub stage : StageId
  pub diagnostic : Error

-- `fan_in_error_envelope`: its records, in the order in which they were pushed
abbrev pub FanInErrorEnvelope : Type 0
FanInErrorEnvelope = List FanInCaseError

unfoldable pub push : FanInCaseError → FanInErrorEnvelope → FanInErrorEnvelope
push record_ envelope = envelope ++ record_ ∷ []

-- What `format` appends for one record, behind its line feed.
unfoldable pub case_line : FanInCaseError → Text
case_line e =
    codes "case["
    ++ (decimal e.case_index
        ++ (codes "] stage="
            ++ (describe_stage e.stage ++ (codes " :: " ++ describe e.diagnostic))))

unfoldable pub case_lines : FanInErrorEnvelope → Text
case_lines [] = []
case_lines (e ∷ errors) = b'\n' ∷ (case_line e ++ case_lines errors)

unfoldable pub format : FanInErrorEnvelope → Text
unfolding case_lines
format errors =
    fan_in_error_schema_version
    ++ b'\n' ∷ (codes "failures=" ++ (decimal (length errors) ++ case_lines errors))

-- `fan_in_case_stage_id`
unfoldable pub fan_in_case_stage_id : ℕ → StageId
fan_in_case_stage_id case_index = record {
  key = codes "fan_in.case." ++ decimal case_index;
  name = codes "case " ++ decimal case_index;
}

-- `diagnostic_message` of a slot
unfoldable pub diagnostic_message : {A : Type 0} → FanInCaseResult A → Text
diagnostic_message slot = elim slot.diagnostic [ none ↦ [] | some message ↦ message ]

-- the record of a slot that has failed
unfoldable pub case_error : {A : Type 0} → FanInCaseResult A → FanInCaseError
unfolding diagnostic_message
case_error slot = record {
  case_index = slot.index;
  stage = fan_in_case_stage_id slot.index;
  diagnostic = record {
    stage = fan_in_case_stage_id slot.index;
    category = stage_failure;
    message = diagnostic_message slot;
  };
}

unfoldable pub collect_fan_in_case :
    {A : Type 0} → FanInCaseResult A → FanInErrorEnvelope → FanInErrorEnvelope
unfolding push
collect_fan_in_case slot envelope =
    if is_failed slot then push (case_error slot) envelope else envelope

-- `collect_fan_in_errors_impl`, over the slots that are left
unfoldable pub collect_from :
    {A : Type 0} → List (FanInCaseResult A) → FanInErrorEnvelope → FanInErrorEnvelope
unfolding collect_fan_in_case
collect_from [] envelope = envelope
collect_from (slot ∷ slots) envelope = collect_from slots (collect_fan_in_case slot envelope)

unfoldable pub collect_fan_in_errors : {A : Type 0} → List (FanInCaseResult A) → FanInErrorEnvelope
unfolding collect_from
collect_fan_in_errors aggregate = collect_from aggregate []
