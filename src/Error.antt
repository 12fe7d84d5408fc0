-- ===== src/Error.antt =====
-- include/pb/runtime/error.hpp and src/runtime/error.cpp: the runtime errors, their descriptions
-- and their JSON form.
pub mod Describe
pub mod JsonRoundTrip
mod Tests
use pipeline_c.Prelude.{
  Bool, true, false, not, ◌||◌, [], ◌∷◌, ◌++◌, ℕ, if◌then◌else◌, codes, Text, is_empty, text_eq,
}
use pipeline_c.Json.Runtime.{json_string}

-- enum class error_category
pub data ErrorCategory : Type 0 where
  stage_failure expected_error exception contract_violation : ErrorCategory

pub record StageId : Type 0 where
  pub key : Text
  pub name : Text

pub record Error : Type 0 where
  pub stage : StageId
  pub category : ErrorCategory
  pub message : Text

pub record ErrorRecord : Type 0 where
  pub stage_key : Text
  pub stage_name : Text
  pub category : Text
  pub message : Text

abbrev pub error_schema_version : Text
error_schema_version = codes "pb.error.v1"

-- `stage_id{}`
abbrev pub no_stage : StageId
no_stage = record { key = []; name = [] }

unfoldable pub category_name : ErrorCategory → Text
category_name stage_failure = codes "stage_failure"
category_name expected_error = codes "expected_error"
category_name exception = codes "exception"
category_name contract_violation = codes "contract_violation"

-- `has_stage` of a stage id; that of an error is this one at its stage.
unfoldable pub has_stage : StageId → Bool
has_stage stage = not (is_empty stage.key) || not (is_empty stage.name)

unfoldable pub has_message : Error → Bool
has_message value = not (is_empty value.message)

unfoldable pub to_record : Error → ErrorRecord
unfolding category_name
to_record value = record {
  stage_key = value.stage.key;
  stage_name = value.stage.name;
  category = category_name value.category;
  message = value.message;
}

-- `describe` of a stage id
unfoldable pub describe_stage : StageId → Text
unfolding has_stage text_eq
describe_stage stage =
    if is_empty stage.name
    then (if has_stage stage then stage.key else codes "<unknown stage>")
    else if is_empty stage.key
    then stage.name
    else if text_eq stage.key stage.name
    then stage.name
    else stage.name ++ (codes " (" ++ (stage.key ++ codes ")"))

-- `describe` of an error
unfoldable pub describe : Error → Text
unfolding has_message
describe value =
    let text = category_name value.category ++ (codes " at " ++ describe_stage value.stage) in
    if has_message value then text ++ (codes ": " ++ value.message) else text

-- `to_json` of a record
unfoldable pub record_to_json : ErrorRecord → Text
record_to_json value =
    codes "{\"schema_version\":"
    ++ (json_string error_schema_version
        ++ (codes ",\"stage\":{\"key\":"
            ++ (json_string value.stage_key
                ++ (codes ",\"name\":"
                    ++ (json_string value.stage_name
                        ++ (codes "},\"category\":"
                            ++ (json_string value.category
                                ++ (codes ",\"message\":"
                                    ++ (json_string value.message ++ b'}' ∷ [])))))))))

-- `to_json` of an error
unfoldable pub to_json : Error → Text
unfolding to_record record_to_json
to_json value = record_to_json (to_record value)
