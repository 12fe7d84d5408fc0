-- ===== src/Json/Trace.antt =====
-- `detail::append_json_string` of include/pb/runtime/trace.hpp, which writes the bytes that have no
-- short escape as they are.
use pipeline_c.Prelude.{ℕ, Bool, true, false, [], ◌∷◌, ◌++◌, ltb, ◌==◌, if◌then◌else◌, Text}

-- The body of the loop.
unfoldable pub escape_code : ℕ → Text
escape_code ch =
    if ch == b'"'
    then b'\\' ∷ b'"' ∷ []
    else if ch == b'\\'
    then b'\\' ∷ b'\\' ∷ []
    else if ch == 8
    then b'\\' ∷ b'b' ∷ []
    else if ch == 12
    then b'\\' ∷ b'f' ∷ []
    else if ch == b'\n'
    then b'\\' ∷ b'n' ∷ []
    else if ch == b'\r'
    then b'\\' ∷ b'r' ∷ []
    else if ch == b'\t'
    then b'\\' ∷ b't' ∷ []
    else ch ∷ []

unfoldable pub escape_codes : Text → Text
unfolding escape_code
escape_codes [] = []
escape_codes (ch ∷ value) = escape_code ch ++ escape_codes value

unfoldable pub json_string : Text → Text
unfolding escape_codes
json_string value = b'"' ∷ (escape_codes value ++ b'"' ∷ [])

-- Whether a byte is a control byte with no short escape in JSON.
unfoldable pub is_raw_control : ℕ → Bool
is_raw_control ch =
    if ch == 8
    then false
    else if ch == 12
    then false
    else if ch == b'\n'
    then false
    else if ch == b'\r'
    then false
    else if ch == b'\t'
    then false
    else ltb ch 0x20

unfoldable pub has_no_raw_control : Text → Bool
has_no_raw_control [] = true
has_no_raw_control (ch ∷ value) =
    let rest = has_no_raw_control value in if is_raw_control ch then false else rest
