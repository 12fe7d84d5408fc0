-- ===== src/Json/Reader.antt =====
-- A reader for the JSON strings of RFC 8259, as an independent description of what the writers
-- print. It stands beside the code: the repository has no JSON parser.
use pipeline_c.Prelude.{
  ℕ, suc, zero, ◌+◌, ◌-◌, ◌*◌, Option, none, some, [], ◌∷◌, ltb, leb, ◌==◌, ◌&&◌, if◌then◌else◌,
  Text,
}

-- Where the reader stands inside a string; `hex k acc` wants `suc k` more digits.
pub data Mode : Type 0 where
  plain escaped : Mode
  hex : ℕ → ℕ → Mode

-- What one byte does: end the string, go on, give a character, or break the syntax.
pub data Move : Type 0 where
  stop bad : Move
  skip : Mode → Move
  out : ℕ → Move

unfoldable pub hex_value : ℕ → Option ℕ
hex_value c =
    if leb b'0' c && leb c b'9'
    then some (c - 48)
    else if leb b'a' c && leb c b'f'
    then some (c - 87)
    else if leb b'A' c && leb c b'F'
    then some (c - 55)
    else none

unfoldable pub unescape : ℕ → Move
unescape c =
    if c == b'"'
    then out b'"'
    else if c == b'\\'
    then out b'\\'
    else if c == b'/'
    then out b'/'
    else if c == b'b'
    then out 8
    else if c == b'f'
    then out 12
    else if c == b'n'
    then out 10
    else if c == b'r'
    then out 13
    else if c == b't'
    then out 9
    else if c == b'u'
    then skip (hex 3 0)
    else bad

unfoldable pub hex_move : ℕ → ℕ → Option ℕ → Move
hex_move k acc none = bad
hex_move zero acc (some d) = out (acc * 16 + d)
hex_move (suc k) acc (some d) = skip (hex k (acc * 16 + d))

unfoldable pub move : Mode → ℕ → Move
unfolding unescape hex_move
move plain c =
    if c == b'"'
    then stop
    else if c == b'\\'
    then skip escaped
    else if ltb c 0x20
    then bad
    else out c
move escaped c = unescape c
move (hex k acc) c = hex_move k acc (hex_value c)

abbrev pub push : ℕ → Option (Text × Text) → Option (Text × Text)
push c none = none
push c (some (s, rest)) = some (c ∷ s, rest)

-- The characters up to the closing quote, and what stands behind it.
unfoldable pub read_chars : Mode → Text → Option (Text × Text)
unfolding move
read_chars m [] = none
read_chars m (c ∷ rest) = elim (move m c) [
  | stop ↦ some ([], rest)
  | bad ↦ none
  | skip m' ↦ read_chars m' rest
  | out b ↦ push b (read_chars plain rest)
]

unfoldable pub read_string : Text → Option (Text × Text)
unfolding read_chars
read_string [] = none
read_string (c ∷ rest) = if c == b'"' then read_chars plain rest else none
