-- ===== src/Json/RoundTrip.antt =====
-- The reader gives back what the writer of src/runtime/error.cpp was given.
use pipeline_c.Prelude.{
  ℕ, suc, ◌+◌, ◌*◌, ◌/◌, ◌%◌, ◌<◌, ◌≡◌, refl, ◌∙◌, ap, sym, subst, false, inl, inr, some, [], ◌∷◌,
  ◌++◌, append_assoc, arith, ltb, ◌==◌, ==_iff, Bool-cases, Text,
}
use pipeline_c.Json.Reader.{plain, hex, hex_value, read_chars, read_string, push}
use pipeline_c.Json.Runtime.{hex_digit, escape_char, escape_chars, json_string}

hex_value-hex_digit : (d : ℕ) → d < 16 → hex_value (hex_digit d) ≡ some d
unfolding hex_value hex_digit
hex_value-hex_digit d h = ground arith

hex_step :
    (k acc d : ℕ) (t : Text)
    → d < 16
    → read_chars (hex (suc k) acc) (hex_digit d ∷ t) ≡ read_chars (hex k (acc * 16 + d)) t
unfolding read_chars
hex_step k acc d t h = ground (arith, hex_value-hex_digit d h)

hex_last :
    (acc d : ℕ) (t : Text)
    → d < 16
    → read_chars (hex 0 acc) (hex_digit d ∷ t) ≡ push (acc * 16 + d) (read_chars plain t)
unfolding read_chars
hex_last acc d t h = ground (arith, hex_value-hex_digit d h)

-- A byte below 256 is read from its four digits.
read_chars-hex :
    (ch : ℕ) (t : Text)
    → ch < 256
    → read_chars (hex 3 0) (
        hex_digit (ch / 4096 % 16)
        ∷ hex_digit (ch / 256 % 16)
        ∷ hex_digit (ch / 16 % 16)
        ∷ hex_digit (ch % 16)
        ∷ t)
      ≡ push ch (read_chars plain t)
read_chars-hex ch t h =
    hex_step 2 0 _ _ (omega arith)
    ∙ hex_step 1 _ _ _ (omega arith)
    ∙ hex_step 0 _ _ _ (omega arith)
    ∙ hex_last _ _ t (omega arith)
    ∙ ap (λ n. push n (read_chars plain t)) (omega arith)

-- To show `P ch` look whether `ch` is the number `k`.
by_value : (P : ℕ → Type 0) (k ch : ℕ) → P k → ((ch == k) ≡ false → P ch) → P ch
by_value P k ch at_k other = elim (Bool-cases (ch == k)) [
  | inl e ↦ subst P (sym ((==_iff ch k).0 e)) at_k
  | inr e ↦ other e
]

abbrev Reads : Text → ℕ → Type 0
Reads t ch = read_chars plain (escape_char ch ++ t) ≡ push ch (read_chars plain t)

read_chars-escape_char : (t : Text) (ch : ℕ) → Reads t ch
unfolding read_chars escape_char
read_chars-escape_char t ch = by_value (Reads t) b'"' ch refl λ n1.
    by_value (Reads t) b'\\' ch refl λ n2. by_value (Reads t) 8 ch refl λ n3.
      by_value (Reads t) 12 ch refl λ n4. by_value (Reads t) b'\n' ch refl λ n5.
        by_value (Reads t) b'\r' ch refl λ n6. by_value (Reads t) b'\t' ch refl λ n7.
          elim (Bool-cases (ltb ch 0x20)) [
            | inl e ↦ ground (arith, read_chars-hex ch t)
            | inr e ↦ ground arith
          ]

read_chars-escape_chars :
    (value rest : Text) → read_chars plain (escape_chars value ++ b'"' ∷ rest) ≡ some (value, rest)
unfolding escape_chars read_chars
read_chars-escape_chars [] rest = refl
read_chars-escape_chars (ch ∷ value) rest =
    rw (append_assoc (escape_char ch) (escape_chars value) (b'"' ∷ rest))
      (read_chars-escape_char _ ch ∙ ap (push ch) (read_chars-escape_chars value rest))

-- A reader of JSON strings reads the string that the error writer prints back to the value, whatever
-- stands behind it.
pub read_string-json_string :
    (value rest : Text) → read_string (json_string value ++ rest) ≡ some (value, rest)
unfolding json_string read_string
read_string-json_string value rest =
    rw (append_assoc (escape_chars value) (b'"' ∷ []) rest) (read_chars-escape_chars value rest)
