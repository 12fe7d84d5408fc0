-- ===== src/ExportDot/NamedLines.antt =====
-- The lines of a DOT document that declare a node or draw an edge (include/pb/core/export_dot.hpp), as
-- the reader of the statements finds them.
use pipeline_c.Prelude.{
  ℕ, suc, zero, ◌/◌, ◌%◌, ◌+◌, ◌≡◌, refl, ◌∙◌, ap, true, false, some, [], ◌∷◌, ◌++◌, codes, Text,
  is_empty, text_eq, expect, decimal, digits, IsLine, literal, append-IsLine, no_newline, arith,
}
use pipeline_c.ExportDot.Names.{is_word_code, are_word_codes}
use pipeline_c.ExportDot.Statements.{
  node, edge, skip_spaces, read_word, declared, read_behind, read_named, read_statement, Draws,
  line-Draws,
}

-- A text of letters, digits and underscores.
pub record IsWord (t : Text) : Type 0 where
  pub holds : are_word_codes t ≡ true

pub word : (t : Text) → are_word_codes t ≡ true → IsWord t
word t h = record { holds = h }

append-are_word_codes :
    (a b : Text)
    → are_word_codes a ≡ true
    → are_word_codes b ≡ true
    → are_word_codes (a ++ b) ≡ true
unfolding are_word_codes
append-are_word_codes [] b h k = k
append-are_word_codes (c ∷ a) b h k = ground (arith, append-are_word_codes a b)

pub append-IsWord : {a b : Text} → IsWord a → IsWord b → IsWord (a ++ b)
append-IsWord {a} {b} h k = word _ (append-are_word_codes a b h.holds k.holds)

digits-are_word_codes :
    (fuel n : ℕ) (out : Text)
    → are_word_codes out ≡ true
    → are_word_codes (digits fuel n out) ≡ true
unfolding digits are_word_codes is_word_code
digits-are_word_codes zero n out h = h
digits-are_word_codes (suc fuel) n out h =
    ground (arith, digits-are_word_codes fuel (n / 10) ((48 + n % 10) ∷ out))

pub decimal-IsWord : (n : ℕ) → IsWord (decimal n)
unfolding decimal are_word_codes
decimal-IsWord n = word _ (digits-are_word_codes (suc n) n [] refl)

-- An identifier that is no keyword.
pub record IsName (t : Text) : Type 0 where
  pub kept : are_word_codes t ≡ true
  pub filled : is_empty t ≡ false
  pub new : text_eq t (b'n' ∷ b'o' ∷ b'd' ∷ b'e' ∷ []) ≡ false

read_word-append :
    (t : Text) (c : ℕ) (rest : Text)
    → are_word_codes t ≡ true
    → is_word_code c ≡ false
    → read_word (t ++ c ∷ rest) ≡ (t, c ∷ rest)
unfolding read_word are_word_codes
read_word-append [] c rest h k = rw k
read_word-append (d ∷ t) c rest h k = ground (arith, read_word-append t c rest)

read_named-node :
    (name rest : Text) → IsName name → read_named (name ++ (codes " [" ++ rest)) ≡ some (node name)
unfolding read_named read_behind declared expect is_word_code
read_named-node [] rest h = cc h.filled
read_named-node (c ∷ t) rest h =
    rw (read_word-append (c ∷ t) b' ' (b'[' ∷ rest) h.kept refl) (rw h.new)

read_named-edge :
    (name target : Text) (d : ℕ) (rest : Text)
    → IsName name
    → IsName target
    → is_word_code d ≡ false
    → read_named (name ++ (codes " -> " ++ (target ++ d ∷ rest))) ≡ some (edge name target)
unfolding read_named read_behind expect is_word_code
read_named-edge [] target d rest w v h = cc w.filled
read_named-edge (c ∷ t) target d rest w v h =
    rw (read_word-append (c ∷ t) b' ' (b'-' ∷ b'>' ∷ b' ' ∷ (target ++ d ∷ rest)) w.kept refl)
      (ap (λ (p : Text × Text). some (edge (c ∷ t) p.0)) (read_word-append target d rest v.kept h))

abbrev pub spaces : ℕ → Text
spaces zero = []
spaces (suc n) = b' ' ∷ spaces n

skip_spaces-name :
    (n : ℕ) (name rest : Text)
    → IsName name
    → skip_spaces (spaces n ++ (name ++ rest)) ≡ name ++ rest
unfolding skip_spaces are_word_codes is_word_code
skip_spaces-name n [] rest h = cc h.filled
skip_spaces-name zero (c ∷ t) rest h = ground (arith, h.kept)
skip_spaces-name (suc n) (c ∷ t) rest h = skip_spaces-name n (c ∷ t) rest h

no_newline-spaces : (n : ℕ) (t : Text) → no_newline t ≡ true → no_newline (spaces n ++ t) ≡ true
unfolding no_newline
no_newline-spaces zero t h = h
no_newline-spaces (suc n) t h = no_newline-spaces n t h

pub no_newline-word : (t : Text) → are_word_codes t ≡ true → no_newline t ≡ true
unfolding no_newline are_word_codes is_word_code
no_newline-word [] h = refl
no_newline-word (c ∷ t) h = ground (arith, no_newline-word t)

indented-IsLine :
    (n : ℕ) {name rest : Text} → IsName name → IsLine rest → IsLine (spaces n ++ (name ++ rest))
indented-IsLine n h k =
    literal _ (no_newline-spaces n _ (append-IsLine (literal _ (no_newline-word _ h.kept)) k).holds)

-- The line of a node declares it, and that of an edge draws it.
pub node-Draws :
    (n : ℕ) (name attributes : Text) {t : Text}
    → IsName name
    → IsLine attributes
    → t ≡ (spaces n ++ (name ++ (codes " [" ++ attributes))) ++ b'\n' ∷ []
    → Draws t (node name ∷ [])
unfolding read_statement no_newline
node-Draws n name attributes h k text =
    line-Draws _ {s = some (node name)}
      (indented-IsLine n h (append-IsLine (literal (codes " [") refl) k)) text
      (ap read_named (skip_spaces-name n name _ h) ∙ read_named-node name attributes h)

pub edge-Draws :
    (n : ℕ) (name target : Text) (d : ℕ) (rest : Text) {t : Text}
    → IsName name
    → IsName target
    → is_word_code d ≡ false
    → IsLine (d ∷ rest)
    → t ≡ (spaces n ++ (name ++ (codes " -> " ++ (target ++ d ∷ rest)))) ++ b'\n' ∷ []
    → Draws t (edge name target ∷ [])
unfolding read_statement no_newline
edge-Draws n name target d rest h k e l text =
    line-Draws _ {s = some (edge name target)}
      (indented-IsLine n h (
        append-IsLine (literal (codes " -> ") refl)
          (append-IsLine (literal _ (no_newline-word target k.kept)) l)))
      text (ap read_named (skip_spaces-name n name _ h) ∙ read_named-edge name target d rest h k e)
