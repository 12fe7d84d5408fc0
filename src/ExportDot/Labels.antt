-- ===== src/ExportDot/Labels.antt =====
-- The labels of include/pb/core/export_dot.hpp stand on one line and are read back.
use pipeline_c.Prelude.{
  ℕ, ◌≡◌, refl, ◌∙◌, ap, Option, none, some, [], ◌∷◌, ◌++◌, ◌==◌, append_assoc, if◌then◌else◌, Text,
  arith,
}
use pipeline_c.ExportDot.{escape_code, escape_dot_label, dot_label}

-- A reader for the quoted labels of the DOT language, as an independent description.
unfoldable pub unescaped : ℕ → ℕ
unescaped ch =
    if ch == b'n' then b'\n' else if ch == b'r' then b'\r' else if ch == b't' then b'\t' else ch

abbrev pub in_front : ℕ → Option (Text × Text) → Option (Text × Text)
in_front ch none = none
in_front ch (some (value, rest)) = some (ch ∷ value, rest)

unfoldable pub read_label_codes : Text → Option (Text × Text)
read_label_codes [] = none
read_label_codes (c ∷ []) = if c == b'"' then some ([], []) else none
read_label_codes (c ∷ d ∷ text) =
    let escaped = in_front (unescaped d) (read_label_codes text) in
    let plain = in_front c (read_label_codes (d ∷ text)) in
    if c == b'"' then some ([], d ∷ text) else if c == b'\\' then escaped else plain

unfoldable pub read_label : Text → Option (Text × Text)
read_label [] = none
read_label (c ∷ text) = if c == b'"' then read_label_codes text else none

read_label-end : (rest : Text) → read_label_codes (b'"' ∷ rest) ≡ some ([], rest)
unfolding read_label_codes
read_label-end [] = refl
read_label-end (d ∷ rest) = refl

read_label-escape :
    (ch : ℕ) (text : Text)
    → read_label_codes (escape_code ch ++ text) ≡ in_front ch (read_label_codes text)
unfolding read_label_codes escape_code unescaped
read_label-escape ch [] = ground arith
read_label-escape ch (d ∷ text) = ground arith

read_label-escapes :
    (value rest : Text)
    → read_label_codes (escape_dot_label value ++ b'"' ∷ rest) ≡ some (value, rest)
unfolding escape_dot_label
read_label-escapes [] rest = read_label-end rest
read_label-escapes (ch ∷ value) rest =
    ap read_label_codes (append_assoc (escape_code ch) (escape_dot_label value) (b'"' ∷ rest))
    ∙ read_label-escape ch (escape_dot_label value ++ b'"' ∷ rest)
    ∙ ap (in_front ch) (read_label-escapes value rest)

-- A reader of quoted labels reads the label that is printed back to the text, whatever stands behind
-- it.
pub read_label-dot_label :
    (value rest : Text) → read_label (dot_label value ++ rest) ≡ some (value, rest)
unfolding read_label dot_label
read_label-dot_label value rest =
    ap read_label_codes (append_assoc (escape_dot_label value) (b'"' ∷ []) rest)
    ∙ read_label-escapes value rest
