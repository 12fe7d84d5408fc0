-- ===== src/Json/Agree.antt =====
-- The two JSON string writers print the same text.
use pipeline_c.Prelude.{
  ℕ, ◌/◌, ◌%◌, ◌<◌, ◌≡◌, refl, ap, ap₂, true, [], ◌∷◌, ◌++◌, arith, ◌==◌, ==_iff, Text, holds_below,
  holds_below_lem,
}
use pipeline_c.Json.Runtime.{hex_digit, escape_char, escape_chars, json_string}
use pipeline_c.Json.Graph.{hex_digit_at, escape_byte, escape_bytes}
use pipeline_c.Json.Graph

hex_table : holds_below (λ i. hex_digit_at i == hex_digit i) 16 ≡ true
unfolding holds_below hex_digit_at hex_digit
hex_table = refl

hex_digit_at-eq : (i : ℕ) → i < 16 → hex_digit_at i ≡ hex_digit i
hex_digit_at-eq i h = (==_iff _ _).0 (holds_below_lem _ 16 i hex_table h)

zero_digit : hex_digit 0 ≡ 48
unfolding hex_digit
zero_digit = refl

escape_byte-eq : (ch : ℕ) → escape_byte ch ≡ escape_char ch
unfolding escape_byte escape_char
escape_byte-eq ch =
    ground (arith, hex_digit_at-eq (ch / 16 % 16), hex_digit_at-eq (ch % 16), zero_digit)

escape_bytes-eq : (value : Text) → escape_bytes value ≡ escape_chars value
unfolding escape_bytes escape_chars
escape_bytes-eq [] = refl
escape_bytes-eq (ch ∷ value) = ap₂ ◌++◌ (escape_byte-eq ch) (escape_bytes-eq value)

-- The string writer of the graph export and that of the runtime errors print the same text, for
-- every value.
pub json_string-agree : (value : Text) → Graph.json_string value ≡ json_string value
unfolding Graph.json_string json_string
json_string-agree value = ap (λ s. b'"' ∷ (s ++ b'"' ∷ [])) (escape_bytes-eq value)
