-- ===== src/Prelude/Options.antt =====
-- Chains of steps that may fail, and writes that may be out of bounds.
use Prim.Native.Nat.{ℕ}
use mathlib.Core.Path.{◌≡◌, refl, ap}
use mathlib.Core.Bool.{true}
use mathlib.Core.Option.{Option, none, some}
use mathlib.Core.List.{List, [], ◌∷◌, ◌++◌}
use native.Mathlib.Omega.{arith}
use pipeline_c.Prelude.Tests.{ltb, if◌then◌else◌}
use pipeline_c.Prelude.Lists.{length, set, length-append}

unfoldable pub and_then : {A B : Type 0} → Option A → (A → Option B) → Option B
and_then none f = none
and_then (some a) f = f a

pub and_then-some :
    {A B : Type 0} (o : Option A) (f : A → Option B) (c : B)
    → and_then o f ≡ some c
    → (a : A) × (o ≡ some a) × (f a ≡ some c)
unfolding and_then
and_then-some none f c e = cc
and_then-some (some a) f c e = (a, refl, e)

-- A step that is known to give a value.
pub and_then-eq :
    {A B : Type 0} (o : Option A) (a : A) (f : A → Option B) → o ≡ some a → and_then o f ≡ f a
unfolding and_then
and_then-eq o a f e = ap (λ x. and_then x f) e

-- A write to an array: out of bounds it fails.
unfoldable pub write : {B : Type 0} → ℕ → B → List B → Option (List B)
write i v xs = if ltb i (length xs) then some (set xs i v) else none

set-append :
    {B : Type 0} (xs ys : List B) (v y : B) → set (xs ++ y ∷ ys) (length xs) v ≡ xs ++ v ∷ ys
set-append [] ys v y = refl
set-append (x ∷ xs) ys v y = ap (λ zs. x ∷ zs) (set-append xs ys v y)

pub write-append :
    {B : Type 0} (xs ys : List B) (v y : B)
    → write (length xs) v (xs ++ y ∷ ys) ≡ some (xs ++ v ∷ ys)
unfolding write
write-append xs ys v y =
    let long = length-append xs (y ∷ ys) in
    let inside : ltb (length xs) (length (xs ++ y ∷ ys)) ≡ true = ground arith in
    rw inside (ap some (set-append xs ys v y))
