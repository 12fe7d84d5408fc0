-- ===== src/Descriptor/Tests.antt =====
-- The descriptor of a small pipeline (include/pb/runtime/descriptor.hpp).
use pipeline_c.Prelude.{
  ℕ, ◌≡◌, refl, ap, some, [], ◌∷◌, ◌++◌, length, get_elem?, codes, decimal, digits, arith,
}
use pipeline_c.Sample.Pipelines.{int_name, other_case, two_stages}
use pipeline_c.Descriptor.Records.{DescriptorView, DescriptorBranchCaseRecord}
use pipeline_c.Descriptor.{
  branch_case_count_or_zero, total_branch_case_count, case_record_of, make_descriptor,
}
use pipeline_c.Descriptor.Buffer.{
  decimal_digits, decimal_digits_from, make_branch_case_id_storage, branch_case_identity_strings,
}
use pipeline_c.Descriptor.Room.{identity_of, branch_case_identity_strings-eq}
use pipeline_c.Descriptor.Spec.{all_records, edges_between}
use pipeline_c.Descriptor.Filled.{make_descriptor-eq}
use pipeline_c.Descriptor.Ids.{make_descriptor-ids}

digits_of_12345 : decimal_digits 12345 ≡ 5
unfolding decimal_digits decimal_digits_from
digits_of_12345 = refl

two_cases : total_branch_case_count two_stages ≡ 2
unfolding total_branch_case_count branch_case_count_or_zero
two_cases = refl

branch_case_identity_strings-eq_example :
    (make_branch_case_id_storage 12 345 ≡ some (codes "branch.12.case.345" ++ 0 ∷ []))
    × (branch_case_identity_strings 12 345 ≡ some (identity_of 12 345))
unfolding decimal digits
branch_case_identity_strings-eq_example =
    branch_case_identity_strings-eq 12 345 (omega arith) (omega arith)

make_descriptor-eq_example :
    (view : DescriptorView) × (make_descriptor int_name two_stages ≡ some view)
    × (length view.stages ≡ 2)
    × (view.edges ≡ edges_between view.stages)
    × (view.branch_cases ≡ all_records int_name 0 two_stages)
make_descriptor-eq_example =
    make_descriptor-eq int_name two_stages (omega arith) (omega (arith, two_cases))

abbrev second_record : DescriptorBranchCaseRecord
second_record = case_record_of int_name 1 1 other_case (identity_of 1 1)

abbrev made :
    (view : DescriptorView) × (make_descriptor int_name two_stages ≡ some view)
    × (length view.stages ≡ 2)
    × (view.edges ≡ edges_between view.stages)
    × (view.branch_cases ≡ all_records int_name 0 two_stages)
made = make_descriptor-eq int_name two_stages (omega arith) (omega (arith, two_cases))

second_listed : get_elem? made.0.branch_cases 1 ≡ some second_record
second_listed = ap (λ records. get_elem? records 1) made.4

abbrev place : ℕ
place = 1

make_descriptor-ids_example : place ≡ place
make_descriptor-ids_example =
    make_descriptor-ids int_name two_stages made.0 place place second_record second_record
      (omega arith) (omega (arith, two_cases)) made.1 second_listed second_listed refl
