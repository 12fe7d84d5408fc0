-- ===== src/Result.antt =====
-- include/pb/runtime/result.hpp: results, what a callable may return, and how a foreign error
-- becomes a runtime error.
use pipeline_c.Prelude.{◌≡◌, Bool, true, false, Option, none, some, [], codes, Text}
use pipeline_c.Error.{Error, no_stage, expected_error}

-- `result<T, E>` holds a value or an error.
pub data Result (A E : Type 0) : Type 0 where
  ok : A → Result A E
  err : E → Result A E

unfoldable pub has_value : {A E : Type 0} → Result A E → Bool
has_value (ok a) = true
has_value (err e) = false

unfoldable pub value_or : {A E : Type 0} → Result A E → A → A
value_or (ok a) fallback = a
value_or (err e) fallback = fallback

unfoldable pub error_or : {A E : Type 0} → Result A E → E → E
error_or (ok a) fallback = fallback
error_or (err e) fallback = e

-- The error types that `error_message_from` tells apart: the library's own error, a `std::string`,
-- a `const char*`, an object with a `diagnostic` that converts to an error, an object that can be
-- written to a stream (with what it writes), and any other.
pub data UserError : Type 0 where
  native : Error → UserError
  string : Text → UserError
  c_string : Option Text → UserError
  carrying : Error → UserError
  streamable : Text → UserError
  opaque : UserError

unfoldable pub error_message_from : UserError → Text
error_message_from (native value) = value.message
error_message_from (string message) = message
error_message_from (c_string none) = []
error_message_from (c_string (some message)) = message
error_message_from (carrying diagnostic) = diagnostic.message
error_message_from (streamable written) = written
error_message_from opaque = codes "expected-like object reported an error"

unfoldable pub normalize_expected_error : UserError → Error
unfolding error_message_from
normalize_expected_error (native value) = value
normalize_expected_error value = record {
  stage = no_stage;
  category = expected_error;
  message = error_message_from value;
}

-- What a callable returns: a plain value, a `pb::runtime::result`, or another expected-like object.
pub data Returned (A : Type 0) : Type 0 where
  plain : A → Returned A
  own_result : Result A UserError → Returned A
  expected_like : Result A UserError → Returned A

-- A `result` is passed on as it is, with its own error type; another expected-like object becomes a
-- `result` with the library's error.
unfoldable pub to_result : {A : Type 0} → Returned A → Result A UserError
unfolding normalize_expected_error
to_result (plain a) = ok a
to_result (own_result r) = r
to_result (expected_like (ok a)) = ok a
to_result (expected_like (err e)) = err (native (normalize_expected_error e))

pub err-injective : {A E : Type 0} {x y : E} → ◌≡◌ {A = Result A E} (err x) (err y) → x ≡ y
err-injective h = cc
