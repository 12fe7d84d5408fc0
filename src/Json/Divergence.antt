-- ===== src/Json/Divergence.antt =====
-- Where the string writer of include/pb/runtime/trace.hpp parts from that of src/runtime/error.cpp.
use pipeline_c.Prelude.{
  ℕ, ◌<◌, ◌≡◌, ◌↔◌, inl, inr, refl, sym, ◌∙◌, ap, true, false, [], ◌∷◌, ◌++◌, arith, Text,
  Bool-cases,
}
use mathlib.Core.List.{append_cancel_left, append_cancel_right}
use pipeline_c.Json.Runtime.{unicode_escape, escape_char, escape_chars, json_string}
use pipeline_c.Json.Trace.{escape_code, escape_codes, is_raw_control, has_no_raw_control}
use pipeline_c.Json.Trace

-- A byte of which both writers append the same.
escape_code-eq : (ch : ℕ) → is_raw_control ch ≡ false → escape_code ch ≡ escape_char ch
unfolding escape_code escape_char is_raw_control
escape_code-eq ch h = ground arith

-- The first byte that each writer appends for a control byte without a short escape.
head_byte : ℕ → Text → ℕ
head_byte d [] = d
head_byte d (c ∷ cs) = c

raw_head :
    (ch : ℕ) (s t : Text)
    → is_raw_control ch ≡ true
    → (head_byte 0 (escape_code ch ++ s) ≡ ch) × (head_byte 0 (escape_char ch ++ t) ≡ b'\\')
unfolding escape_code escape_char is_raw_control unicode_escape head_byte
raw_head ch s t h = ground arith

raw_small : (ch : ℕ) → is_raw_control ch ≡ true → ch < 0x20
unfolding is_raw_control
raw_small ch h = ground arith

raw_apart :
    (ch : ℕ) (s t : Text)
    → is_raw_control ch ≡ true
    → escape_code ch ++ s ≡ escape_char ch ++ t
    → false ≡ true
raw_apart ch s t h e =
    let (here, there) = raw_head ch s t h in
    let small = raw_small ch h in let same = ap (head_byte 0) e in absurd (omega arith)

escape_codes-eq :
    (value : Text) → has_no_raw_control value ≡ true → escape_codes value ≡ escape_chars value
unfolding escape_codes escape_chars has_no_raw_control
escape_codes-eq [] h = refl
escape_codes-eq (ch ∷ value) h = ground (arith, escape_code-eq ch, escape_codes-eq value)

escape_codes_back :
    (value : Text) → escape_codes value ≡ escape_chars value → has_no_raw_control value ≡ true
unfolding escape_codes escape_chars has_no_raw_control
escape_codes_back [] e = refl
escape_codes_back (ch ∷ value) e = elim (Bool-cases (is_raw_control ch)) [
  | inl raw ↦ rw raw (raw_apart ch (escape_codes value) (escape_chars value) raw e)
  | inr fine ↦ rw fine (
      escape_codes_back value (
        append_cancel_left (escape_char ch) (escape_codes value) (escape_chars value)
          (ap (λ c. c ++ escape_codes value) (sym (escape_code-eq ch fine)) ∙ e)))
]

tail : Text → Text
tail [] = []
tail (c ∷ cs) = cs

-- The string writer of the trace export and that of the runtime errors print the same text for the
-- values in which each control byte has a short escape, and for no others.
pub trace_json_string-agree :
    (value : Text)
    → (Trace.json_string value ≡ json_string value) ↔ (has_no_raw_control value ≡ true)
unfolding Trace.json_string json_string tail
trace_json_string-agree value = (
  (λ e.
      escape_codes_back value
        (append_cancel_right (escape_codes value) (escape_chars value) (b'"' ∷ []) (ap tail e))),
  λ h. ap (λ s. b'"' ∷ (s ++ b'"' ∷ [])) (escape_codes-eq value h),
)
