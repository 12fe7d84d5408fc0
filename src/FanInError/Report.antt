-- ===== src/FanInError/Report.antt =====
-- The report of include/pb/runtime/fan_in_error.hpp, line by line.
use pipeline_c.Prelude.{
  ◌≡◌, refl, ap, sym, ◌∙◌, [], ◌∷◌, ◌++◌, append-nil, append_assoc, map, length, All, Text, codes,
  decimal, is_empty, text_eq, no_newline, split_lines, split_lines-newline, split_lines-line,
  IsLine, literal, append-IsLine, if-IsLine, decimal-IsLine,
}
use pipeline_c.Error.{
  StageId, Error, ErrorCategory, stage_failure, expected_error, exception, contract_violation,
  category_name, has_stage, has_message, describe_stage, describe,
}
use pipeline_c.FanInError.{
  fan_in_error_schema_version, FanInCaseError, FanInErrorEnvelope, case_line, case_lines, format,
}

-- A stage whose key and name have no line feed.
pub record OneLine (id : StageId) : Type 0 where
  pub key : IsLine id.key
  pub name : IsLine id.name

pub describe_stage-IsLine : (id : StageId) → OneLine id → IsLine (describe_stage id)
unfolding describe_stage no_newline
describe_stage-IsLine id h =
    if-IsLine (is_empty id.name)
      (if-IsLine (has_stage id) h.key (literal (codes "<unknown stage>") refl))
      (if-IsLine (is_empty id.key) h.name (
        if-IsLine (text_eq id.key id.name) h.name (
          append-IsLine h.name (
            append-IsLine (literal (codes " (") refl)
              (append-IsLine h.key (literal (codes ")") refl))))))

pub category_name-IsLine : (c : ErrorCategory) → IsLine (category_name c)
unfolding category_name no_newline
category_name-IsLine stage_failure = literal _ refl
category_name-IsLine expected_error = literal _ refl
category_name-IsLine exception = literal _ refl
category_name-IsLine contract_violation = literal _ refl

describe-IsLine :
    (value : Error) → OneLine value.stage → IsLine value.message → IsLine (describe value)
unfolding describe no_newline
describe-IsLine value h k =
    let text =
      append-IsLine (category_name-IsLine value.category)
        (append-IsLine (literal (codes " at ") refl) (describe_stage-IsLine value.stage h)) in
    if-IsLine (has_message value) (append-IsLine text (append-IsLine (literal (codes ": ") refl) k))
      text

-- A record whose texts have no line feed.
pub record OneLineCase (e : FanInCaseError) : Type 0 where
  pub stage : OneLine e.stage
  pub failed_stage : OneLine e.diagnostic.stage
  pub message : IsLine e.diagnostic.message

case_line-IsLine : (e : FanInCaseError) → OneLineCase e → IsLine (case_line e)
unfolding case_line no_newline
case_line-IsLine e h = append-IsLine (literal (codes "case[") refl) (
    append-IsLine (decimal-IsLine e.case_index) (
      append-IsLine (literal (codes "] stage=") refl) (
        append-IsLine (describe_stage-IsLine e.stage h.stage) (
          append-IsLine (literal (codes " :: ") refl)
            (describe-IsLine e.diagnostic h.failed_stage h.message)))))

split_lines-case_lines :
    (front : Text) (errors : FanInErrorEnvelope)
    → IsLine front
    → All OneLineCase errors
    → split_lines (front ++ case_lines errors) ≡ front ∷ map case_line errors
unfolding case_lines
split_lines-case_lines front [] h k =
    ap split_lines (append-nil front) ∙ split_lines-line front h.holds
split_lines-case_lines front (e ∷ errors) h (one, others) =
    split_lines-newline front (case_line e ++ case_lines errors) h.holds
    ∙ ap (λ x. front ∷ x)
        (split_lines-case_lines (case_line e) errors (case_line-IsLine e one) others)

-- If the texts of an envelope's records have no line feed, then its report has exactly these lines:
-- the schema version, the number of records, and one line for each record, in their order.
pub split_lines-format :
    (errors : FanInErrorEnvelope)
    → All OneLineCase errors
    → split_lines (format errors)
      ≡ fan_in_error_schema_version
        ∷ (codes "failures=" ++ decimal (length errors))
        ∷ map case_line errors
unfolding format no_newline
split_lines-format errors h =
    let count = append-IsLine (literal (codes "failures=") refl) (decimal-IsLine (length errors)) in
    split_lines-newline fan_in_error_schema_version _ refl
    ∙ ap (λ x. fan_in_error_schema_version ∷ x)
        (ap split_lines
            (sym (append_assoc (codes "failures=") (decimal (length errors)) (case_lines errors)))
          ∙ split_lines-case_lines (codes "failures=" ++ decimal (length errors)) errors count h)
