-- ===== src/ExportDot/Names.antt =====
-- The names of graphs in include/pb/core/export_dot.hpp, beside a description of their own of the
-- names that are kept.
use pipeline_c.Prelude.{
  ℕ, ◌≡◌, refl, sym, ◌∙◌, ap, ◌↔◌, Bool, true, false, not, ◌&&◌, ◌||◌, leb, ◌==◌, [], ◌∷◌, Text,
  arith,
}
use pipeline_c.ExportDot.{
  is_digit, is_identifier_code, sanitize_code, sanitize_codes, sanitize_front, sanitize_identifier,
}

-- The digits, letters and underscore of ASCII, by their numbers.
unfoldable pub is_ascii_digit : ℕ → Bool
is_ascii_digit ch = leb 48 ch && leb ch 57

unfoldable pub is_word_code : ℕ → Bool
is_word_code ch =
    (leb 97 ch && leb ch 122)
    || ((leb 65 ch && leb ch 90) || ((leb 48 ch && leb ch 57) || (ch == 95)))

unfoldable pub are_word_codes : Text → Bool
are_word_codes [] = true
are_word_codes (ch ∷ t) = is_word_code ch && are_word_codes t

-- A name of such characters that is not empty and has no digit in front.
abbrev pub is_plain_name : Text → Bool
is_plain_name [] = false
is_plain_name (ch ∷ t) = not (is_ascii_digit ch) && are_word_codes (ch ∷ t)

sanitize_code-kept : (ch : ℕ) → is_word_code (sanitize_code ch) ≡ true
unfolding sanitize_code is_identifier_code is_word_code
sanitize_code-kept ch = ground arith

sanitize_code-same : (ch : ℕ) → is_word_code ch ≡ true → sanitize_code ch ≡ ch
unfolding sanitize_code is_identifier_code is_word_code
sanitize_code-same ch h = ground arith

sanitize_codes-kept : (t : Text) → are_word_codes (sanitize_codes t) ≡ true
unfolding sanitize_codes are_word_codes
sanitize_codes-kept [] = refl
sanitize_codes-kept (ch ∷ t) = rw (sanitize_code-kept ch) (sanitize_codes-kept t)

sanitize_front-valid :
    (t : Text) → are_word_codes t ≡ true → is_plain_name (sanitize_front t) ≡ true
unfolding sanitize_front are_word_codes is_digit is_ascii_digit is_word_code
sanitize_front-valid [] h = refl
sanitize_front-valid (ch ∷ t) h = ground (arith, h)

sanitize_codes-same : (t : Text) → are_word_codes t ≡ true → sanitize_codes t ≡ t
unfolding sanitize_codes are_word_codes
sanitize_codes-same [] h = refl
sanitize_codes-same (ch ∷ t) h = ground (arith, sanitize_codes-same t, sanitize_code-same ch)

sanitize_front-same : (t : Text) → is_plain_name t ≡ true → sanitize_front t ≡ t
unfolding sanitize_front are_word_codes is_digit is_ascii_digit
sanitize_front-same [] h = cc
sanitize_front-same (ch ∷ t) h = ground arith

pub is_plain_name-codes : (t : Text) → is_plain_name t ≡ true → are_word_codes t ≡ true
is_plain_name-codes [] h = cc
is_plain_name-codes (ch ∷ t) h = ground arith

-- Whatever the name of a graph is, it is made a name of ASCII letters, digits and underscores that is
-- not empty and has no digit in front, and it is kept as it is exactly if it is such a name.
pub sanitize_identifier-valid :
    (value : Text)
    → (is_plain_name (sanitize_identifier value) ≡ true)
      × ((sanitize_identifier value ≡ value) ↔ (is_plain_name value ≡ true))
unfolding sanitize_identifier
sanitize_identifier-valid value =
    let valid = sanitize_front-valid (sanitize_codes value) (sanitize_codes-kept value) in
    (
      valid,
      (
        (λ same. sym (ap is_plain_name same) ∙ valid),
        (λ h.
            ap sanitize_front (sanitize_codes-same value (is_plain_name-codes value h))
            ∙ sanitize_front-same value h),
      ),
    )
