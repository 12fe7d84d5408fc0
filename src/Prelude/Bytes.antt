-- ===== src/Prelude/Bytes.antt =====
-- A `std::string` is the list of its bytes. Literals are ASCII but for one dash, which is written
-- by its bytes.
mod Decimal
mod Lines
unfoldable pub use Decimal.{decimal, digits}
pub use Decimal.{decimal-injective, decimal-ne-nil, decimal-IsLine}
unfoldable pub use Lines.{no_newline, split_lines}
pub use Lines.{split_lines-newline, split_lines-line, IsLine, literal, append-IsLine, if-IsLine}
use Prim.Native.Nat.{ℕ}
use Prim.Native.Char.{code}
use Prim.Native.String.{String}
use mathlib.Core.Path.{◌≡◌, refl}
use mathlib.Core.Logic.{◌↔◌}
use mathlib.Core.Bool.{Bool, true, false, ◌&&◌}
use mathlib.Core.Option.{Option, none, some}
use mathlib.Core.List.{List, [], ◌∷◌, ◌++◌}
use native.Mathlib.Omega.{arith}
use pipeline_c.Prelude.Tests.{◌==◌, ==_iff, if◌then◌else◌}

abbrev pub Text : Type 0
Text = List ℕ

abbrev pub codes : String → List ℕ
codes String.[] = []
codes (String.◌∷◌ c s) = code c ∷ codes s

-- `s.empty()`
abbrev pub is_empty {ℓ} : {A : Type ℓ} → List A → Bool
is_empty [] = true
is_empty (x ∷ xs) = false

-- `s == t`
unfoldable pub text_eq : Text → Text → Bool
text_eq [] [] = true
text_eq [] (b ∷ t) = false
text_eq (a ∷ s) [] = false
text_eq (a ∷ s) (b ∷ t) = a == b && text_eq s t

pub text_eq_refl : (s : Text) → text_eq s s ≡ true
unfolding text_eq
text_eq_refl [] = refl
text_eq_refl (a ∷ s) = ground (arith, text_eq_refl s)

pub text_eq_sound : (s t : Text) → text_eq s t ≡ true → s ≡ t
unfolding text_eq
text_eq_sound [] [] h = refl
text_eq_sound [] (b ∷ t) h = cc
text_eq_sound (a ∷ s) [] h = cc
text_eq_sound (a ∷ s) (b ∷ t) h = ground (arith, text_eq_sound s t)

-- The text behind a given prefix, for readers of what the program prints.
unfoldable pub expect : Text → Text → Option Text
expect [] t = some t
expect (a ∷ p) [] = none
expect (a ∷ p) (b ∷ t) = if a == b then expect p t else none

pub expect-append : (p t : Text) → expect p (p ++ t) ≡ some t
unfolding expect
expect-append [] t = refl
expect-append (a ∷ p) t = ground (arith, expect-append p t)
