-- ===== src/Descriptor/Filled.antt =====
-- `make_descriptor` of include/pb/runtime/descriptor.hpp fills its arrays with what the stages are.
use pipeline_c.Prelude.{
  ℕ, suc, ◌+◌, ◌^◌, ◌<◌, ◌≤◌, ◌≡◌, refl, sym, ◌∙◌, ap, ap₂, some, List, [], ◌∷◌, ◌++◌, length,
  length-append, append-nil, append_assoc, Text, arith, and_then-eq, write-append,
}
use pipeline_c.CppType.{CppType}
use pipeline_c.Stage.{node_key, node_name}
use pipeline_c.Builder.{
  node_of, CaseDecl, StageType, plain_stage, selected_branch_node, fan_in_branch_node,
}
use pipeline_c.Descriptor.Records.{
  DescriptorView, DescriptorBranchCaseRecord, to_runtime_edge_record, empty_case_record,
  stage_records, edge_records, fill_edge_records,
}
use pipeline_c.Descriptor.{
  branch_case_count_or_zero, total_branch_case_count, copy_records, to_runtime_stage_record,
  fill_stage_records, to_branch_case_record, branch_case_records_from_node, collect_node,
  collect_one, collect_all, fill_branch_case_records, make_descriptor,
}
use pipeline_c.Descriptor.Buffer.{replicate}
use pipeline_c.Descriptor.Room.{branch_case_identity_strings-eq}
use pipeline_c.Descriptor.Spec.{node_cases, node_records, all_records, edges_between}

-- An array whose first places are filled.
abbrev filled : List DescriptorBranchCaseRecord → ℕ → List DescriptorBranchCaseRecord
filled done room = done ++ replicate room empty_case_record

copy_records-append :
    (records done : List DescriptorBranchCaseRecord) (n room : ℕ)
    → n ≡ length records + room
    → copy_records (length done) records (done ++ replicate n empty_case_record)
      ≡ some ((done ++ records) ++ replicate room empty_case_record)
unfolding copy_records replicate
copy_records-append [] done n room e =
    ap₂ (λ t k. some (t ++ replicate k empty_case_record)) (sym (append-nil done)) (omega arith)
copy_records-append (r ∷ records) done n room e =
    let same : n ≡ suc (length records + room) = omega arith in
    ap (λ k. copy_records (length done) (r ∷ records) (done ++ replicate k empty_case_record)) same
    ∙ and_then-eq _ _ _ (
        write-append done (replicate (length records + room) empty_case_record) r empty_case_record)
    ∙ ap₂ (λ k array. copy_records k records array) (omega (arith, length-append done (r ∷ [])))
        (sym (append_assoc done (r ∷ []) (replicate (length records + room) empty_case_record)))
    ∙ copy_records-append records (done ++ r ∷ []) (length records + room) room refl
    ∙ ap (λ t. some (t ++ replicate room empty_case_record)) (append_assoc done (r ∷ []) records)

module _ {S A : Type 0} (type_name : CppType → Text) where
  length-node_records :
      (i j : ℕ) (cases : List (CaseDecl S A))
      → length (node_records type_name i j cases) ≡ length cases
  length-node_records i j [] = refl
  length-node_records i j (c ∷ cases) = omega (arith, length-node_records i (suc j) cases)

  branch_case_records_from_node-eq :
      (i j : ℕ) (cases : List (CaseDecl S A))
      → i < 2 ^ 64
      → j + length cases ≤ 2 ^ 64
      → branch_case_records_from_node type_name i j cases ≡ some (node_records type_name i j cases)
  unfolding branch_case_records_from_node to_branch_case_record
  branch_case_records_from_node-eq i j [] small_i small_j = refl
  branch_case_records_from_node-eq i j (c ∷ cases) small_i small_j =
      and_then-eq _ _ _
        (and_then-eq _ _ _ (branch_case_identity_strings-eq i j small_i (omega arith)).1)
      ∙ and_then-eq _ _ _ (branch_case_records_from_node-eq i (suc j) cases small_i (omega arith))

  module _ (i : ℕ) (done : List DescriptorBranchCaseRecord) (n room : ℕ) (small : i < 2 ^ 64) where
    collect_node-eq :
        (cases : List (CaseDecl S A))
        → length cases ≤ 2 ^ 64
        → n ≡ length cases + room
        → collect_node type_name i cases (length done) (filled done n)
          ≡ some
              (length done + length cases, filled (done ++ node_records type_name i 0 cases) room)
    unfolding collect_node
    collect_node-eq cases few e =
        and_then-eq _ _ _ (branch_case_records_from_node-eq i 0 cases small (omega arith))
        ∙ and_then-eq _ _ _ (
            copy_records-append (node_records type_name i 0 cases) done n room
              (omega (arith, length-node_records i 0 cases)))

    collect_one-eq :
        (s : StageType S A)
        → branch_case_count_or_zero s ≤ 2 ^ 64
        → n ≡ branch_case_count_or_zero s + room
        → collect_one type_name i s (length done) (filled done n)
          ≡ some (
            length done + branch_case_count_or_zero s,
            filled (done ++ node_records type_name i 0 (node_cases s)) room,
          )
    unfolding collect_one branch_case_count_or_zero
    collect_one-eq (plain_stage decl) few e =
        ap₂ (λ k array. some (k, array)) (omega arith)
          (ap₂ (λ t k. filled t k) (sym (append-nil done)) (omega arith))
    collect_one-eq (selected_branch_node cases) few e = collect_node-eq cases few e
    collect_one-eq (fan_in_branch_node cases) few e = collect_node-eq cases few e

  length-node_cases :
      (i : ℕ) (s : StageType S A)
      → length (node_records type_name i 0 (node_cases s)) ≡ branch_case_count_or_zero s
  unfolding branch_case_count_or_zero
  length-node_cases i (plain_stage decl) = refl
  length-node_cases i (selected_branch_node cases) = length-node_records i 0 cases
  length-node_cases i (fan_in_branch_node cases) = length-node_records i 0 cases

  collect_all-eq :
      (i : ℕ) (stages : List (StageType S A)) (done : List DescriptorBranchCaseRecord) (n : ℕ)
      → i + length stages ≤ 2 ^ 64
      → total_branch_case_count stages ≤ 2 ^ 64
      → n ≡ total_branch_case_count stages
      → collect_all type_name i stages (length done) (filled done n)
        ≡ some (done ++ all_records type_name i stages)
  unfolding collect_all total_branch_case_count replicate
  collect_all-eq i [] done n small few e = ap (λ k. some (filled done k)) e
  collect_all-eq i (s ∷ stages) done n small few e =
      let records = node_records type_name i 0 (node_cases s) in
      and_then-eq _ _ _
        (collect_one-eq i done n (total_branch_case_count stages) (omega arith) s (omega arith) e)
      ∙ ap
          (λ k.
            collect_all type_name (suc i) stages k
              (filled (done ++ records) (total_branch_case_count stages)))
          (omega (arith, length-append done records, length-node_cases i s))
      ∙ collect_all-eq (suc i) stages (done ++ records) (total_branch_case_count stages)
          (omega arith) (omega arith) refl
      ∙ ap some (append_assoc done records (all_records type_name (suc i) stages))

fill_edge_records-between :
    {S A : Type 0} (type_name : CppType → Text) (i : ℕ) (stages : List (StageType S A))
    → fill_edge_records (edge_records i stages)
      ≡ edges_between (fill_stage_records type_name (stage_records i stages) stages)
unfolding fill_edge_records edge_records fill_stage_records stage_records to_runtime_edge_record
    to_runtime_stage_record
fill_edge_records-between type_name i [] = refl
fill_edge_records-between type_name i (s ∷ []) = refl
fill_edge_records-between type_name i (s ∷ t ∷ stages) =
    let next : i + 1 ≡ suc i = omega arith in
    ap₂
      (λ k rest.
        record {
          index = i;
          from_stage_index = i;
          to_stage_index = k;
          from_key = node_key (node_of s);
          from_name = node_name (node_of s);
          to_key = node_key (node_of t);
          to_name = node_name (node_of t);
          label = [];
        }
        ∷ rest)
      next (fill_edge_records-between type_name (suc i) (t ∷ stages))

length-fill_stage_records :
    {S A : Type 0} (type_name : CppType → Text) (i : ℕ) (stages : List (StageType S A))
    → length (fill_stage_records type_name (stage_records i stages) stages) ≡ length stages
unfolding fill_stage_records stage_records
length-fill_stage_records type_name i [] = refl
length-fill_stage_records type_name i (s ∷ stages) =
    omega (arith, length-fill_stage_records type_name (suc i) stages)

-- Where the stages and the cases are no more than a `std::size_t` of 64 bits can number, a descriptor
-- is made without a write out of bounds: it has a record for each stage, an edge from each stage to the
-- one behind it, and the records of the cases of all branches and fan-ins, in the order of the stages
-- and cases, each at its stage's index and its own.
pub make_descriptor-eq :
    {S A : Type 0} (type_name : CppType → Text) (stages : List (StageType S A))
    → length stages ≤ 2 ^ 64
    → total_branch_case_count stages ≤ 2 ^ 64
    → (view : DescriptorView) × (make_descriptor type_name stages ≡ some view)
      × (length view.stages ≡ length stages)
      × (view.edges ≡ edges_between view.stages)
      × (view.branch_cases ≡ all_records type_name 0 stages)
unfolding make_descriptor fill_branch_case_records
make_descriptor-eq type_name stages small few = (
  _,
  and_then-eq _ _ _ (collect_all-eq type_name 0 stages [] _ (omega arith) few refl),
  length-fill_stage_records type_name 0 stages,
  fill_edge_records-between type_name 0 stages,
  refl,
)
