-- ===== src/Prelude/Bytes/Lines.antt =====
-- Texts of several lines: `split_lines` cuts a text at its line feeds.
use Prim.Native.Nat.{ℕ}
use mathlib.Core.Path.{◌≡◌, refl}
use mathlib.Core.Bool.{Bool, true, false}
use mathlib.Core.List.{List, [], ◌∷◌, ◌++◌}
use native.Mathlib.Omega.{arith}
use pipeline_c.Prelude.Tests.{◌==◌, if◌then◌else◌}

unfoldable pub no_newline : List ℕ → Bool
no_newline [] = true
no_newline (c ∷ t) = if c == b'\n' then false else no_newline t

-- Puts a character in front of the first line.
abbrev pub in_front : ℕ → List (List ℕ) → List (List ℕ)
in_front c [] = (c ∷ []) ∷ []
in_front c (l ∷ ls) = (c ∷ l) ∷ ls

unfoldable pub split_lines : List ℕ → List (List ℕ)
split_lines [] = [] ∷ []
split_lines (c ∷ t) = let rest = split_lines t in if c == b'\n' then [] ∷ rest else in_front c rest

no_newline-append :
    (a b : List ℕ) → no_newline a ≡ true → no_newline b ≡ true → no_newline (a ++ b) ≡ true
unfolding no_newline
no_newline-append [] b h k = k
no_newline-append (c ∷ a) b h k = ground (arith, no_newline-append a b)

pub split_lines-newline :
    (a b : List ℕ) → no_newline a ≡ true → split_lines (a ++ b'\n' ∷ b) ≡ a ∷ split_lines b
unfolding no_newline split_lines
split_lines-newline [] b h = refl
split_lines-newline (c ∷ a) b h = ground (arith, split_lines-newline a b)

pub split_lines-line : (a : List ℕ) → no_newline a ≡ true → split_lines a ≡ a ∷ []
unfolding no_newline split_lines
split_lines-line [] h = refl
split_lines-line (c ∷ a) h = ground (arith, split_lines-line a)

-- A text without a line feed.
pub record IsLine (t : List ℕ) : Type 0 where
  pub holds : no_newline t ≡ true

pub literal : (t : List ℕ) → no_newline t ≡ true → IsLine t
literal t h = record { holds = h }

pub append-IsLine : {a b : List ℕ} → IsLine a → IsLine b → IsLine (a ++ b)
append-IsLine {a} {b} h k = record { holds = no_newline-append a b h.holds k.holds }

pub if-IsLine : (b : Bool) {x y : List ℕ} → IsLine x → IsLine y → IsLine (if b then x else y)
if-IsLine true h k = h
if-IsLine false h k = k
