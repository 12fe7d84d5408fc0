-- ===== src/Json/Runtime.antt =====
-- `detail::append_json_string` of src/runtime/error.cpp.
use pipeline_c.Prelude.{ℕ, ◌+◌, ◌/◌, ◌%◌, [], ◌∷◌, ◌++◌, ltb, ◌==◌, if◌then◌else◌, Text}

-- One digit of `%x`.
unfoldable pub hex_digit : ℕ → ℕ
hex_digit d = if ltb d 10 then 48 + d else 87 + d

-- `std::snprintf(buf, sizeof(buf), "\\u%04x", value)` of a value below 2 ^ 16.
unfoldable pub unicode_escape : ℕ → Text
unfolding hex_digit
unicode_escape v =
    b'\\'
    ∷ b'u'
    ∷ hex_digit (v / 4096 % 16)
    ∷ hex_digit (v / 256 % 16)
    ∷ hex_digit (v / 16 % 16)
    ∷ hex_digit (v % 16)
    ∷ []

-- The body of the loop: what is appended for one byte.
unfoldable pub escape_char : ℕ → Text
unfolding unicode_escape
escape_char ch =
    if ch == b'"'
    then b'\\' ∷ b'"' ∷ []
    else if ch == b'\\'
    then b'\\' ∷ b'\\' ∷ []
    else if ch == 8
    then b'\\' ∷ b'b' ∷ []
    else if ch == 12
    then b'\\' ∷ b'f' ∷ []
    else if ch == b'\n'
    then b'\\' ∷ b'n' ∷ []
    else if ch == b'\r'
    then b'\\' ∷ b'r' ∷ []
    else if ch == b'\t'
    then b'\\' ∷ b't' ∷ []
    else if ltb ch 0x20
    then unicode_escape ch
    else ch ∷ []

unfoldable pub escape_chars : Text → Text
unfolding escape_char
escape_chars [] = []
escape_chars (ch ∷ value) = escape_char ch ++ escape_chars value

unfoldable pub json_string : Text → Text
unfolding escape_chars
json_string value = b'"' ∷ (escape_chars value ++ b'"' ∷ [])
