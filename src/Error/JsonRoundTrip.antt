-- ===== src/Error/JsonRoundTrip.antt =====
-- The JSON form of an error determines the error: a reader written from the documented shape of
-- `pb.error.v1` gives it back.
use pipeline_c.Prelude.{
  ◌≡◌, refl, Option, none, some, ◌++◌, append_assoc, codes, Text, text_eq, expect, if◌then◌else◌,
}
use pipeline_c.Json.{read_string, read_string-json_string}
use pipeline_c.Error.{
  ErrorCategory, stage_failure, expected_error, exception, contract_violation, Error, ErrorRecord,
  error_schema_version, category_name, to_record, record_to_json, to_json,
}

infixl 5 ◌>>=◌
abbrev ◌>>=◌ : {A B : Type 0} → Option A → (A → Option B) → Option B
none >>= f = none
some a >>= f = f a

-- The documented shape, read field by field.
read_record : Text → Option (ErrorRecord × Text)
read_record text = do
  t1 ← expect (codes "{\"schema_version\":") text
  (version, t2) ← read_string t1
  t3 ← expect (codes ",\"stage\":{\"key\":") t2
  (key, t4) ← read_string t3
  t5 ← expect (codes ",\"name\":") t4
  (name, t6) ← read_string t5
  t7 ← expect (codes "},\"category\":") t6
  (category, t8) ← read_string t7
  t9 ← expect (codes ",\"message\":") t8
  (message, t10) ← read_string t9
  t11 ← expect (codes "}") t10
  if text_eq version error_schema_version
      then some (
        record { stage_key = key; stage_name = name; category = category; message = message },
        t11,
      )
      else none

read_record-record_to_json :
    (value : ErrorRecord) (rest : Text)
    → read_record (record_to_json value ++ rest) ≡ some (value, rest)
unfolding read_record record_to_json expect text_eq
read_record-record_to_json value rest = simp (append_assoc, read_string-json_string)

read_category : Text → Option ErrorCategory
read_category name =
    if text_eq name (codes "stage_failure")
    then some stage_failure
    else if text_eq name (codes "expected_error")
    then some expected_error
    else if text_eq name (codes "exception")
    then some exception
    else if text_eq name (codes "contract_violation")
    then some contract_violation
    else none

read_category-category_name :
    (category : ErrorCategory) → read_category (category_name category) ≡ some category
unfolding read_category category_name text_eq
read_category-category_name stage_failure = refl
read_category-category_name expected_error = refl
read_category-category_name exception = refl
read_category-category_name contract_violation = refl

of_record : ErrorRecord → Option Error
of_record r = do
  category ← read_category r.category
  some (record {
    stage = record { key = r.stage_key; name = r.stage_name };
    category = category;
    message = r.message;
  })

pub read_error : Text → Option (Error × Text)
read_error text = do (r, rest) ← read_record text; value ← of_record r; some (value, rest)

of_record-to_record : (value : Error) → of_record (to_record value) ≡ some value
unfolding of_record to_record
of_record-to_record value = rw (read_category-category_name value.category)

-- The JSON text of an error, whatever stands behind it, is read back to the error that was printed.
pub read_error-to_json :
    (value : Error) (rest : Text) → read_error (to_json value ++ rest) ≡ some (value, rest)
unfolding read_error to_json
read_error-to_json value rest =
    simp (read_record-record_to_json (to_record value) rest, of_record-to_record value)
