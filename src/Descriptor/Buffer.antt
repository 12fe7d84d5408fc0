-- ===== src/Descriptor/Buffer.antt =====
-- The strings that include/pb/runtime/descriptor.hpp makes at compile time: `decimal_digits`,
-- `consteval_buffer` and the identities of branch cases. A write out of bounds does not compile, and
-- gives none here.
use pipeline_c.Prelude.{
  ℕ, zero, suc, ◌+◌, ◌/◌, ◌%◌, Option, none, some, List, [], ◌∷◌, ◌==◌, ltb, if◌then◌else◌, length,
  codes, Text, and_then, write,
}

-- `temp` is enough fuel for the loop from `temp`.
unfoldable pub decimal_digits_from : (fuel temp count : ℕ) → ℕ
decimal_digits_from zero temp count = count
decimal_digits_from (suc fuel) temp count =
    let rest = decimal_digits_from fuel (temp / 10) (suc count) in
    if ltb temp 10 then count else rest

unfoldable pub decimal_digits : ℕ → ℕ
decimal_digits value = decimal_digits_from (suc value) value 1

pub record ConstevalBuffer : Type 0 where
  pub data_ : List ℕ
  pub pos : ℕ

unfoldable pub replicate : {B : Type 0} → ℕ → B → List B
replicate zero b = []
replicate (suc n) b = b ∷ replicate n b

unfoldable pub new_buffer : ℕ → ConstevalBuffer
new_buffer size = record { data_ = replicate size 0; pos = 0 }

-- `data[pos++] = ch`
unfoldable pub put : ℕ → ConstevalBuffer → Option ConstevalBuffer
put ch buf =
    and_then (write buf.pos ch buf.data_)
      (λ bytes. some (record { data_ = bytes; pos = suc buf.pos }))

unfoldable pub append_literal : Text → ConstevalBuffer → Option ConstevalBuffer
append_literal [] buf = some buf
append_literal (ch ∷ text) buf = and_then (put ch buf) (append_literal text)

-- The first loop of `append_decimal`: the array of digits so far, its last one first, as the second
-- loop reads them. The array has room for 20, which bounds the loop, so that 21 is enough fuel.
unfoldable pub take_digits : (fuel value : ℕ) → List ℕ → Option (List ℕ)
take_digits zero value digits = none
take_digits (suc fuel) value digits =
    let rest = take_digits fuel (value / 10) ((48 + value % 10) ∷ digits) in
    if ltb (length digits) 20
    then if value / 10 == 0 then some ((48 + value % 10) ∷ digits) else rest
    else none

unfoldable pub append_decimal : ℕ → ConstevalBuffer → Option ConstevalBuffer
append_decimal value buf = and_then (take_digits 21 value []) (λ digits. append_literal digits buf)

-- `null_terminate`, and the array of the buffer
unfoldable pub null_terminate : ConstevalBuffer → Option (List ℕ)
null_terminate buf = write buf.pos 0 buf.data_

-- What the three makers of a case's strings begin with.
unfoldable pub append_case :
    (branch_index case_index : ℕ) → ConstevalBuffer → Option ConstevalBuffer
append_case branch_index case_index buf = and_then (append_literal (codes "branch.") buf) (λ buf1.
    and_then (append_decimal branch_index buf1)
      (λ buf2. and_then (append_literal (codes ".case.") buf2) (append_decimal case_index)))

unfoldable pub make_branch_case_id_storage : (branch_index case_index : ℕ) → Option (List ℕ)
make_branch_case_id_storage branch_index case_index =
    let total = 7 + decimal_digits branch_index + 6 + decimal_digits case_index in
    and_then (append_case branch_index case_index (new_buffer (total + 1))) null_terminate

-- `make_predicate_node_id_storage` and `make_stage_node_id_storage`, with their suffixes
unfoldable pub make_node_id_storage :
    (suffix : Text) (branch_index case_index : ℕ) → Option (List ℕ)
make_node_id_storage suffix branch_index case_index =
    let total = 7 + decimal_digits branch_index + 6 + decimal_digits case_index + length suffix in
    and_then (append_case branch_index case_index (new_buffer (total + 1)))
      (λ buf. and_then (append_literal suffix buf) null_terminate)

-- All but the last byte of an array, as a `std::string_view`.
unfoldable pub without_last : List ℕ → Text
without_last [] = []
without_last (b ∷ []) = []
without_last (b ∷ c ∷ bytes) = b ∷ without_last (c ∷ bytes)

pub record BranchCaseIdentity : Type 0 where
  pub case_id : Text
  pub case_key : Text
  pub predicate_node_id : Text
  pub stage_node_id : Text

-- `branch_case_identity_strings`
unfoldable pub branch_case_identity_strings :
    (branch_index case_index : ℕ) → Option BranchCaseIdentity
branch_case_identity_strings branch_index case_index =
    and_then (make_branch_case_id_storage branch_index case_index) (λ case_storage.
      and_then (make_node_id_storage (codes ".predicate") branch_index case_index)
        (λ predicate_storage.
          and_then (make_node_id_storage (codes ".stage") branch_index case_index) (λ stage_storage.
            some (record {
              case_id = without_last case_storage;
              case_key = without_last case_storage;
              predicate_node_id = without_last predicate_storage;
              stage_node_id = without_last stage_storage;
            }))))
