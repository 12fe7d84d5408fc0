-- ===== src/ExportJson/Items.antt =====
-- Numbers, strings and arrays in the documents of include/pb/core/export_json.hpp are read back.
use pipeline_c.Prelude.{
  ℕ, zero, suc, ◌+◌, ◌/◌, ◌%◌, ◌<◌, ◌≡◌, refl, ◌∙◌, ap, Bool, true, false, Option, some, List, [],
  ◌∷◌, ◌++◌, append_assoc, Text, expect, digits, decimal, arith, map, length,
}
use pipeline_c.Json.{read_string, read_string-json_string}
use pipeline_c.Json.Graph.{json_string}
use pipeline_c.Json.Agree.{json_string-agree}
use pipeline_c.ExportJson.{joined}
use pipeline_c.ExportJson.Reader.{◌>>=◌, read_digits, read_number, read_items}

-- Behind a number stands a comma, which is 44.
read_digits-digits :
    (fuel n : ℕ) (out rest : Text)
    → n < fuel
    → read_digits 0 (digits fuel n out ++ 44 ∷ rest) ≡ read_digits n (out ++ 44 ∷ rest)
unfolding digits read_digits
read_digits-digits zero n out rest h = absurd (omega arith)
read_digits-digits (suc fuel) n out rest h =
    ground (arith, read_digits-digits fuel (n / 10) ((48 + n % 10) ∷ out) rest)

pub read_number-decimal :
    (n : ℕ) (rest : Text) → read_number (decimal n ++ 44 ∷ rest) ≡ some (n, 44 ∷ rest)
unfolding read_number decimal read_digits
read_number-decimal n rest = ap some (read_digits-digits (suc n) n [] rest (omega arith))

pub read_graph_string :
    (value rest : Text) → read_string (json_string value ++ rest) ≡ some (value, rest)
read_graph_string value rest =
    ap (λ t. read_string (t ++ rest)) (json_string-agree value) ∙ read_string-json_string value rest

module _ {B C : Type 0} (read : Text → Option (C × Text)) (json : B → Text) (doc : B → C)
    (reads : (x : B) (rest : Text) → read (json x ++ rest) ≡ some (doc x, rest))
    (opens : (x : B) → (body : Text) × (json x ≡ 123 ∷ body)) where
  -- The step of `read_items` at an element.
  next_items : (fuel : ℕ) → Text → Option (List C × Text)
  next_items fuel t = do
    (x, t1) ← read t
    (xs, t2) ← read_items read fuel false t1
    some (x ∷ xs, t2)

  next_items-json :
      (fuel : ℕ) (x : B) (t : Text) (cs : List C) (rest : Text)
      → read_items read fuel false t ≡ some (cs, rest)
      → next_items fuel (json x ++ t) ≡ some (doc x ∷ cs, rest)
  unfolding next_items
  next_items-json fuel x t cs rest h = simp (reads, h)

  read_items-first :
      (fuel : ℕ) (x : B) (t : Text)
      → read_items read (suc fuel) true (json x ++ t) ≡ next_items fuel (json x ++ t)
  unfolding read_items next_items
  read_items-first fuel x t = rw (opens x).1 refl

  -- An array of elements is read back, whatever stands behind it.
  pub read_items-joined :
      (fuel : ℕ) (first : Bool) (xs : List B) (rest : Text)
      → length xs < fuel
      → read_items read fuel first (joined json first xs ++ 93 ∷ rest) ≡ some (map doc xs, rest)
  unfolding read_items joined expect next_items
  read_items-joined zero first xs rest h = absurd (omega arith)
  read_items-joined (suc fuel) first [] rest h = refl
  read_items-joined (suc fuel) true (x ∷ xs) rest h =
      ap (read_items read (suc fuel) true)
        (append_assoc (json x) (joined json false xs) (93 ∷ rest))
      ∙ read_items-first fuel x _
      ∙ next_items-json fuel x _ _ rest (read_items-joined fuel false xs rest (omega arith))
  read_items-joined (suc fuel) false (x ∷ xs) rest h =
      ap (next_items fuel) (append_assoc (json x) (joined json false xs) (93 ∷ rest))
      ∙ next_items-json fuel x _ _ rest (read_items-joined fuel false xs rest (omega arith))
