-- ===== src/Json/Graph.antt =====
-- `detail::append_json_string` of include/pb/core/export_json.hpp.
use pipeline_c.Prelude.{
  ℕ, ◌/◌, ◌%◌, ◌^◌, some, none, [], ◌∷◌, ◌++◌, ltb, ◌==◌, if◌then◌else◌, codes, Text, get_elem?,
}

abbrev hex_digits : Text
hex_digits = codes "0123456789abcdef"

-- `hex_digits[i]`, for an index that the callers mask to four bits.
unfoldable pub hex_digit_at : ℕ → ℕ
hex_digit_at i = elim (get_elem? hex_digits i) [ some c ↦ c | none ↦ 0 ]

unfoldable pub escape_byte : ℕ → Text
unfolding hex_digit_at
escape_byte ch =
    if ch == b'"'
    then codes "\\\""
    else if ch == b'\\'
    then codes "\\\\"
    else if ch == 8
    then codes "\\b"
    else if ch == 12
    then codes "\\f"
    else if ch == b'\n'
    then codes "\\n"
    else if ch == b'\r'
    then codes "\\r"
    else if ch == b'\t'
    then codes "\\t"
    else if ltb ch 0x20
    then codes "\\u00" ++ hex_digit_at (ch / 2 ^ 4 % 16) ∷ hex_digit_at (ch % 16) ∷ []
    else ch ∷ []

unfoldable pub escape_bytes : Text → Text
unfolding escape_byte
escape_bytes [] = []
escape_bytes (ch ∷ value) = escape_byte ch ++ escape_bytes value

unfoldable pub json_string : Text → Text
unfolding escape_bytes
json_string value = b'"' ∷ (escape_bytes value ++ b'"' ∷ [])
