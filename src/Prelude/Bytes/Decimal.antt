-- ===== src/Prelude/Bytes/Decimal.antt =====
-- `std::to_string` of an unsigned number: its decimal digits, the first one first.
use Prim.Native.Nat.{ℕ, zero, suc, ◌+◌, ◌-◌, ◌*◌, ◌/◌, ◌%◌, ◌<◌}
use mathlib.Core.Path.{◌≡◌, refl, ap, sym, ◌∙◌}
use mathlib.Core.Logic.{◌≢◌}
use mathlib.Core.List.{List, [], ◌∷◌}
use native.Mathlib.Omega.{arith}
use pipeline_c.Prelude.Bytes.Lines.{no_newline, IsLine, literal}
use mathlib.Core.Bool.{true}
use pipeline_c.Prelude.Tests.{ltb, if◌then◌else◌}

-- The digits of `n` in front of `out`; `n < fuel` is enough fuel.
unfoldable pub digits : ℕ → ℕ → List ℕ → List ℕ
digits zero n out = out
digits (suc fuel) n out =
    let rest = digits fuel (n / 10) ((48 + n % 10) ∷ out) in
    if ltb n 10 then (48 + n) ∷ out else rest

unfoldable pub decimal : ℕ → List ℕ
unfolding digits
decimal n = digits (suc n) n []

-- The number that digits stand for, read behind a prefix that stands for `acc`.
value_from : ℕ → List ℕ → ℕ
value_from acc [] = acc
value_from acc (d ∷ ds) = value_from (acc * 10 + (d - 48)) ds

value_from-digits :
    (fuel n : ℕ) (out : List ℕ) → n < fuel → value_from 0 (digits fuel n out) ≡ value_from n out
unfolding digits value_from
value_from-digits zero n out h = absurd (omega arith)
value_from-digits (suc fuel) n out h =
    ground (arith, value_from-digits fuel (n / 10) ((48 + n % 10) ∷ out))

digits-ne-nil : (fuel n d : ℕ) (out : List ℕ) → digits fuel n (d ∷ out) ≢ []
unfolding digits
digits-ne-nil zero n d out = ground arith
digits-ne-nil (suc fuel) n d out =
    ground (arith, digits-ne-nil fuel (n / 10) (48 + n % 10) (d ∷ out))

pub decimal-injective : (m n : ℕ) → decimal m ≡ decimal n → m ≡ n
unfolding decimal value_from
decimal-injective m n h =
    sym (value_from-digits (suc m) m [] (omega arith))
    ∙ ap (value_from 0) h
    ∙ value_from-digits (suc n) n [] (omega arith)

pub decimal-ne-nil : (n : ℕ) → decimal n ≢ []
unfolding decimal
decimal-ne-nil n = ground (arith, digits-ne-nil n (n / 10) (48 + n % 10) [])

decimal_120 : decimal 120 ≡ 49 ∷ 50 ∷ 48 ∷ []
unfolding decimal
decimal_120 = refl

digits-no_newline :
    (fuel n : ℕ) (out : List ℕ) → no_newline out ≡ true → no_newline (digits fuel n out) ≡ true
unfolding digits no_newline
digits-no_newline zero n out h = h
digits-no_newline (suc fuel) n out h =
    ground (arith, digits-no_newline fuel (n / 10) ((48 + n % 10) ∷ out))

pub decimal-IsLine : (n : ℕ) → IsLine (decimal n)
unfolding decimal no_newline
decimal-IsLine n = literal _ (digits-no_newline (suc n) n [] refl)
