-- ===== src/ExportDot/Statements.antt =====
-- A reader for the nodes and edges of a DOT document that has a statement on each line, as an
-- independent description of what include/pb/core/export_dot.hpp draws.
use pipeline_c.Prelude.{
  ℕ, ◌≡◌, refl, sym, ◌∙◌, ap, Option, none, some, List, [], ◌∷◌, ◌++◌, ◌==◌, append_assoc,
  append-nil, subst, if◌then◌else◌, codes, Text, is_empty, text_eq, expect, IsLine, split_lines,
  split_lines-newline,
}
use pipeline_c.ExportDot.Names.{is_word_code}

pub data Statement : Type 0 where
  node : Text → Statement
  edge : Text → Text → Statement

unfoldable pub skip_spaces : Text → Text
skip_spaces [] = []
skip_spaces (c ∷ t) = if c == b' ' then skip_spaces t else c ∷ t

abbrev pub word_in_front : ℕ → Text × Text → Text × Text
word_in_front c (word, rest) = (c ∷ word, rest)

-- The identifier at the front of a text, and what stands behind it.
unfoldable pub read_word : Text → Text × Text
read_word [] = ([], [])
read_word (c ∷ t) =
    let rest = read_word t in if is_word_code c then word_in_front c rest else ([], c ∷ t)

-- `node [...]` gives the attributes of all nodes; it declares none.
unfoldable pub declared : Text → Option Text → Option Statement
declared word none = none
declared word (some attributes) = if text_eq word (codes "node") then none else some (node word)

-- What stands behind an identifier: an arrow and another one, or attributes.
unfoldable pub read_behind : Text → (rest : Text) → Option Text → Option Statement
read_behind word rest none = declared word (expect (codes " [") rest)
read_behind word rest (some target) = some (edge word (read_word target).0)

unfoldable pub read_named : Text → Option Statement
read_named t =
    let (word, rest) = read_word t in
    if is_empty word then none else read_behind word rest (expect (codes " -> ") rest)

unfoldable pub read_statement : Text → Option Statement
read_statement line = read_named (skip_spaces line)

abbrev pub listed : Option Statement → List Statement
listed none = []
listed (some s) = s ∷ []

unfoldable pub line_statements : List Text → List Statement
line_statements [] = []
line_statements (line ∷ lines) = listed (read_statement line) ++ line_statements lines

-- The nodes and edges of a document, in the order of its lines.
unfoldable pub statements : Text → List Statement
statements text = line_statements (split_lines text)

-- A text of whole lines that holds these statements, whatever stands behind it.
pub record Draws (t : Text) (ss : List Statement) : Type 0 where
  pub holds : (rest : Text) → statements (t ++ rest) ≡ ss ++ statements rest

pub append-Draws :
    {a b : Text} {xs ys : List Statement} → Draws a xs → Draws b ys → Draws (a ++ b) (xs ++ ys)
append-Draws {a} {b} {xs} {ys} p q = record {
  holds = λ rest.
      ap statements (append_assoc a b rest)
      ∙ p.holds (b ++ rest)
      ∙ ap (λ ss. xs ++ ss) (q.holds rest)
      ∙ sym (append_assoc xs ys (statements rest));
}

pub redraw : {t u : Text} {ss : List Statement} → Draws u ss → t ≡ u → Draws t ss
redraw d e = record { holds = λ rest. ap (λ t. statements (t ++ rest)) e ∙ d.holds rest }

-- Such a text alone holds these statements and no others.
pub statements-Draws : {t : Text} {ss : List Statement} → Draws t ss → statements t ≡ ss
unfolding statements line_statements split_lines read_statement read_named read_word skip_spaces
statements-Draws {t} {ss} d = ap statements (sym (append-nil t)) ∙ d.holds [] ∙ append-nil ss

-- A last text that holds no statements.
pub end-Draws : {a b : Text} {ss : List Statement} → Draws a ss → Draws b [] → Draws (a ++ b) ss
end-Draws {a} {b} {ss} d e = subst (Draws (a ++ b)) (append-nil ss) (append-Draws d e)

pub nothing-Draws : Draws [] []
nothing-Draws = record { holds = λ rest. refl }

pub line-Draws :
    (line : Text) {t : Text} {s : Option Statement}
    → IsLine line
    → t ≡ line ++ b'\n' ∷ []
    → read_statement line ≡ s
    → Draws t (listed s)
unfolding statements line_statements
line-Draws line {t} {s} whole text read = record {
  holds = λ rest.
      ap (λ t. statements (t ++ rest)) text
      ∙ ap statements (append_assoc line (b'\n' ∷ []) rest)
      ∙ ap line_statements (split_lines-newline line rest whole.holds)
      ∙ ap (λ s. listed s ++ statements rest) read;
}
