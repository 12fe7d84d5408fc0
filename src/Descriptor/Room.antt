-- ===== src/Descriptor/Room.antt =====
-- The buffers of include/pb/runtime/descriptor.hpp have the room that they need, to the byte.
use pipeline_c.Prelude.{
  ℕ, zero, suc, ◌+◌, ◌*◌, ◌/◌, ◌%◌, ◌^◌, ◌<◌, ◌≤◌, ◌≡◌, refl, sym, ◌∙◌, ap, ap₂, some, List, [],
  ◌∷◌, ◌++◌, length, length-append, append-nil, append_assoc, codes, Text, digits, decimal, arith,
  and_then-eq, write-append,
}
use native.Mathlib.Numerals.{unary_clauses}
use pipeline_c.Descriptor.Buffer.{
  decimal_digits_from, decimal_digits, ConstevalBuffer, replicate, new_buffer, put, append_literal,
  take_digits, append_decimal, null_terminate, append_case, make_branch_case_id_storage,
  make_node_id_storage, without_last, BranchCaseIdentity, branch_case_identity_strings,
}

decimal_digits_from-digits :
    (fuel n : ℕ) (out : List ℕ)
    → n < fuel
    → decimal_digits_from fuel n (suc (length out)) ≡ length (digits fuel n out)
unfolding decimal_digits_from digits
decimal_digits_from-digits zero n out h = absurd (omega arith)
decimal_digits_from-digits (suc fuel) n out h =
    ground (arith, decimal_digits_from-digits fuel (n / 10) ((48 + n % 10) ∷ out))

decimal_digits-decimal : (n : ℕ) → decimal_digits n ≡ length (decimal n)
unfolding decimal_digits decimal
decimal_digits-decimal n = decimal_digits_from-digits (suc n) n [] (omega arith)

-- A number below `10 ^ suc m` has at most `suc m` digits.
take_digits-eq :
    (m value fuel fuel' : ℕ) (out : List ℕ)
    → value < 10 ^ suc m
    → length out + suc m ≤ 20
    → m < fuel
    → value < fuel'
    → take_digits fuel value out ≡ some (digits fuel' value out)
unfolding take_digits digits
take_digits-eq m value zero fuel' out below room h k = absurd (omega arith)
take_digits-eq m value (suc fuel) zero out below room h k = absurd (omega arith)
take_digits-eq zero value (suc fuel) (suc fuel') out below room h k = ground arith
take_digits-eq (suc m) value (suc fuel) (suc fuel') out below room h k =
    let power : 10 ^ suc (suc m) ≡ 10 * 10 ^ suc m = simp unary_clauses (omega arith) in
    let fits : value / 10 < 10 ^ suc m = omega arith in
    ground (
      arith,
      λ (long : value / 10 < fuel').
          take_digits-eq m (value / 10) fuel fuel' ((48 + value % 10) ∷ out) fits (omega arith)
            (omega arith) long,
    )

-- A buffer that holds a text, and has room for more bytes.
abbrev holding : Text → ℕ → ConstevalBuffer
holding text room = record { data_ = text ++ replicate room 0; pos = length text }

put-holding :
    (c : ℕ) (text : Text) (room : ℕ)
    → put c (holding text (suc room)) ≡ some (holding (text ++ c ∷ []) room)
unfolding put replicate
put-holding c text room =
    and_then-eq _ _ _ (write-append text (replicate room 0) c 0)
    ∙ ap₂ (λ d p. some (record { data_ = d; pos = p })) (sym (append_assoc text (c ∷ []) _))
        (omega (arith, length-append text (c ∷ [])))

module _ (room : ℕ) where
  append_literal-holding :
      (cs text : Text) (n : ℕ)
      → n ≡ length cs + room
      → append_literal cs (holding text n) ≡ some (holding (text ++ cs) room)
  unfolding append_literal
  append_literal-holding [] text n e =
      ap₂ (λ t k. some (holding t k)) (sym (append-nil text)) (omega arith)
  append_literal-holding (c ∷ cs) text n e =
      ap (λ k. append_literal (c ∷ cs) (holding text k)) (omega arith)
      ∙ and_then-eq _ _ _ (put-holding c text (length cs + room))
      ∙ append_literal-holding cs (text ++ c ∷ []) (length cs + room) refl
      ∙ ap (λ t. some (holding t room)) (append_assoc text (c ∷ []) cs)

  append_decimal-holding :
      (value : ℕ) (text : Text) (n : ℕ)
      → value < 2 ^ 64
      → n ≡ length (decimal value) + room
      → append_decimal value (holding text n) ≡ some (holding (text ++ decimal value) room)
  unfolding append_decimal decimal
  append_decimal-holding value text n small e =
      and_then-eq _ _ _ (
        take_digits-eq 19 value 21 (suc value) [] (omega arith) (omega arith) (omega arith)
          (omega arith))
      ∙ append_literal-holding (digits (suc value) value []) text n e

null_terminate-holding : (text : Text) → null_terminate (holding text 1) ≡ some (text ++ 0 ∷ [])
unfolding null_terminate replicate
null_terminate-holding text = write-append text [] 0 0

-- The id of a case.
abbrev pub case_name : (branch_index case_index : ℕ) → Text
case_name branch_index case_index =
    codes "branch." ++ (decimal branch_index ++ (codes ".case." ++ decimal case_index))

module _ (i j : ℕ) (small_i : i < 2 ^ 64) (small_j : j < 2 ^ 64) where
  append_case-holding :
      (room n : ℕ)
      → n ≡ 7 + decimal_digits i + 6 + decimal_digits j + room
      → append_case i j (new_buffer n) ≡ some (holding (case_name i j) room)
  unfolding append_case new_buffer
  append_case-holding room n e =
      let digits_i = decimal_digits-decimal i in
      let digits_j = decimal_digits-decimal j in
      let room_j = length (decimal j) + room in
      let room_case = 6 + room_j in
      let room_i = length (decimal i) + room_case in
      and_then-eq _ _ _ (append_literal-holding room_i (codes "branch.") [] n (omega arith))
      ∙ and_then-eq _ _ _ (append_decimal-holding room_case i (codes "branch.") room_i small_i refl)
      ∙ and_then-eq _ _ _ (
          append_literal-holding room_j (codes ".case.") (codes "branch." ++ decimal i) room_case
            refl)
      ∙ append_decimal-holding room j ((codes "branch." ++ decimal i) ++ codes ".case.") room_j
          small_j refl
      ∙ ap (λ t. some (holding t room))
          (append_assoc (codes "branch." ++ decimal i) (codes ".case.") (decimal j)
            ∙ append_assoc (codes "branch.") (decimal i) (codes ".case." ++ decimal j))

  make_branch_case_id_storage-eq : make_branch_case_id_storage i j ≡ some (case_name i j ++ 0 ∷ [])
  unfolding make_branch_case_id_storage
  make_branch_case_id_storage-eq =
      and_then-eq _ _ _ (append_case-holding 1 _ refl) ∙ null_terminate-holding (case_name i j)

  make_node_id_storage-eq :
      (suffix : Text) → make_node_id_storage suffix i j ≡ some ((case_name i j ++ suffix) ++ 0 ∷ [])
  unfolding make_node_id_storage
  make_node_id_storage-eq suffix =
      and_then-eq _ _ _ (append_case-holding (length suffix + 1) _ (omega arith))
      ∙ and_then-eq _ _ _ (append_literal-holding 1 suffix (case_name i j) (length suffix + 1) refl)
      ∙ null_terminate-holding (case_name i j ++ suffix)

without_last-append : (text : Text) (b : ℕ) → without_last (text ++ b ∷ []) ≡ text
unfolding without_last
without_last-append [] b = refl
without_last-append (c ∷ []) b = refl
without_last-append (c ∷ d ∷ text) b = ap (λ t. c ∷ t) (without_last-append (d ∷ text) b)

abbrev pub identity_of : (branch_index case_index : ℕ) → BranchCaseIdentity
identity_of i j = record {
  case_id = case_name i j;
  case_key = case_name i j;
  predicate_node_id = case_name i j ++ codes ".predicate";
  stage_node_id = case_name i j ++ codes ".stage";
}

-- For all indexes that a `std::size_t` of 64 bits holds, the strings of a branch case are made without
-- a write out of bounds, each in a buffer that it fills to the last byte.
pub branch_case_identity_strings-eq :
    (i j : ℕ)
    → i < 2 ^ 64
    → j < 2 ^ 64
    → (make_branch_case_id_storage i j ≡ some (case_name i j ++ 0 ∷ []))
      × (branch_case_identity_strings i j ≡ some (identity_of i j))
unfolding branch_case_identity_strings
branch_case_identity_strings-eq i j small_i small_j = (
  make_branch_case_id_storage-eq i j small_i small_j,
  and_then-eq _ _ _ (make_branch_case_id_storage-eq i j small_i small_j)
      ∙ and_then-eq _ _ _ (make_node_id_storage-eq i j small_i small_j (codes ".predicate"))
      ∙ and_then-eq _ _ _ (make_node_id_storage-eq i j small_i small_j (codes ".stage"))
      ∙ ap
          (λ a. some (record {
            case_id = a;
            case_key = a;
            predicate_node_id = without_last ((case_name i j ++ codes ".predicate") ++ 0 ∷ []);
            stage_node_id = without_last ((case_name i j ++ codes ".stage") ++ 0 ∷ []);
          }))
          (without_last-append (case_name i j) 0)
      ∙ ap₂
          (λ b c. some (record {
            case_id = case_name i j;
            case_key = case_name i j;
            predicate_node_id = b;
            stage_node_id = c;
          }))
          (without_last-append (case_name i j ++ codes ".predicate") 0)
          (without_last-append (case_name i j ++ codes ".stage") 0),
)
