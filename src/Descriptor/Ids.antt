-- ===== src/Descriptor/Ids.antt =====
-- The case ids of a descriptor (include/pb/runtime/descriptor.hpp) tell its cases apart.
use pipeline_c.Prelude.{
  ℕ, zero, suc, ◌+◌, ◌^◌, ◌/◌, ◌%◌, ◌≤◌, ◌≡◌, refl, sym, ◌∙◌, ap, ap₂, ◌⊎◌, inl, inr, some,
  some-injective, List, [], ◌∷◌, ◌++◌, length, get_elem?, All, Text, codes, digits, decimal,
  decimal-injective, arith, subst,
}
use pipeline_c.CppType.{CppType}
use pipeline_c.Builder.{CaseDecl, StageType}
use pipeline_c.Descriptor.Records.{DescriptorView, DescriptorBranchCaseRecord}
use pipeline_c.Descriptor.{case_record_of, total_branch_case_count, make_descriptor}
use pipeline_c.Descriptor.Room.{case_name, identity_of}
use pipeline_c.Descriptor.Spec.{node_cases, node_records, all_records}
use pipeline_c.Descriptor.Filled.{make_descriptor-eq}

-- A decimal has no dot, which is 46.
abbrev AreDigits : List ℕ → Type 0
AreDigits ds = All (λ (d : ℕ). 48 ≤ d) ds

digits-AreDigits : (fuel n : ℕ) (out : List ℕ) → AreDigits out → AreDigits (digits fuel n out)
unfolding digits
digits-AreDigits zero n out h = h
digits-AreDigits (suc fuel) n out h =
    ground (arith, digits-AreDigits fuel (n / 10) ((48 + n % 10) ∷ out) (omega arith, h))

decimal-AreDigits : (n : ℕ) → AreDigits (decimal n)
unfolding decimal
decimal-AreDigits n = digits-AreDigits (suc n) n [] tt

-- A text is divided at its first dot.
at_dot :
    (xs ys s t : Text)
    → AreDigits xs
    → AreDigits ys
    → xs ++ 46 ∷ s ≡ ys ++ 46 ∷ t
    → (xs ≡ ys) × (s ≡ t)
at_dot [] [] s t h k e = (refl, cc)
at_dot [] (y ∷ ys) s t h (small, k) e = let same : 46 ≡ y = cc in absurd (omega arith)
at_dot (x ∷ xs) [] s t (small, h) k e = let same : x ≡ 46 = cc in absurd (omega arith)
at_dot (x ∷ xs) (y ∷ ys) s t (_, h) (_, k) e =
    let first : x ≡ y = cc in
    let rest : xs ++ 46 ∷ s ≡ ys ++ 46 ∷ t = cc in
    let (heads, tails) = at_dot xs ys s t h k rest in (cc, tails)

pub case_name-injective : (i j i' j' : ℕ) → case_name i j ≡ case_name i' j' → (i ≡ i') × (j ≡ j')
case_name-injective i j i' j' e =
    let rest : decimal i ++ (codes ".case." ++ decimal j)
        ≡ decimal i' ++ (codes ".case." ++ decimal j') =
      cc in
    let (heads, tails) =
      at_dot (decimal i) (decimal i') _ _ (decimal-AreDigits i) (decimal-AreDigits i') rest in
    let last : decimal j ≡ decimal j' = cc in
    (decimal-injective i i' heads, decimal-injective j j' last)

get_elem?-append-cases :
    {B : Type 0} (xs ys : List B) (p : ℕ) (b : B)
    → get_elem? (xs ++ ys) p ≡ some b
    → (get_elem? xs p ≡ some b) ⊎ ((k : ℕ) × (p ≡ length xs + k) × (get_elem? ys k ≡ some b))
get_elem?-append-cases [] ys p b e = inr (p, omega arith, e)
get_elem?-append-cases (x ∷ xs) ys zero b e = inl e
get_elem?-append-cases (x ∷ xs) ys (suc p) b e = elim (get_elem?-append-cases xs ys p b e) [
  | inl here ↦ inl here
  | inr (k, far, there) ↦ inr (k, omega arith, there)
]

-- What the record at a place of a node is about.
record At (i j : ℕ) (r : DescriptorBranchCaseRecord) : Type 0 where
  stage : r.branch_stage_index ≡ i
  index : r.case_index ≡ j
  id : r.case_id ≡ case_name i j

module _ {S A : Type 0} (type_name : CppType → Text) where
  node_records-At :
      (i j p : ℕ) (cases : List (CaseDecl S A)) (r : DescriptorBranchCaseRecord)
      → get_elem? (node_records type_name i j cases) p ≡ some r
      → At i (j + p) r
  unfolding case_record_of
  node_records-At i j p [] r e = cc
  node_records-At i j zero (c ∷ cases) r e =
      let first : At i j (case_record_of type_name i j c (identity_of i j)) = record {
        stage = refl;
        index = refl;
        id = refl;
      } in
      let same : j ≡ j + 0 = omega arith in
      subst (λ k. At i k r) same (subst (At i j) (some-injective _ _ e) first)
  node_records-At i j (suc p) (c ∷ cases) r e =
      let same : suc j + p ≡ j + suc p = omega arith in
      subst (λ k. At i k r) same (node_records-At i (suc j) p cases r e)

  -- A record is about its own indexes, and none of a stage before.
  all_records-At :
      (i p : ℕ) (stages : List (StageType S A)) (r : DescriptorBranchCaseRecord)
      → get_elem? (all_records type_name i stages) p ≡ some r
      → (i ≤ r.branch_stage_index) × (r.case_id ≡ case_name r.branch_stage_index r.case_index)
  all_records-At i p [] r e = cc
  all_records-At i p (s ∷ stages) r e =
      elim (get_elem?-append-cases (node_records type_name i 0 (node_cases s)) _ p r e) [
        | inl here ↦
            let found = node_records-At i 0 p (node_cases s) r here in
            let stage = found.stage in
            (omega arith, found.id ∙ ap₂ case_name (sym stage) (sym found.index))
        | inr (k, _, there) ↦
            let (later, id) = all_records-At (suc i) k stages r there in (omega arith, id)
      ]

  -- No two places have the same indexes.
  all_records-eq :
      (i p q : ℕ) (stages : List (StageType S A)) (r r' : DescriptorBranchCaseRecord)
      → get_elem? (all_records type_name i stages) p ≡ some r
      → get_elem? (all_records type_name i stages) q ≡ some r'
      → r.branch_stage_index ≡ r'.branch_stage_index
      → r.case_index ≡ r'.case_index
      → p ≡ q
  all_records-eq i p q [] r r' e f same_stage same_case = cc
  all_records-eq i p q (s ∷ stages) r r' e f same_stage same_case =
      let node = node_records type_name i 0 (node_cases s) in
      elim (get_elem?-append-cases node _ p r e) [
        | inl here ↦
            let found = node_records-At i 0 p (node_cases s) r here in
            elim (get_elem?-append-cases node _ q r' f) [
              | inl here' ↦
                  let found' = node_records-At i 0 q (node_cases s) r' here' in
                  omega (arith, found.index, found'.index)
              | inr (k, _, there) ↦
                  let (later, _) = all_records-At (suc i) k stages r' there in
                  absurd (omega (arith, found.stage))
            ]
        | inr (k, far, there) ↦
            let (later, _) = all_records-At (suc i) k stages r there in
            elim (get_elem?-append-cases node _ q r' f) [
              | inl here' ↦
                  let found' = node_records-At i 0 q (node_cases s) r' here' in
                  absurd (omega (arith, found'.stage))
              | inr (k', far', there') ↦
                  let same : k ≡ k' =
                    all_records-eq (suc i) k k' stages r r' there there' same_stage same_case in
                  omega arith
            ]
      ]

-- The case ids of a descriptor are distinct: two records of branch cases with one id stand at one
-- place, whatever labels, keys and names the cases have.
pub make_descriptor-ids :
    {S A : Type 0} (type_name : CppType → Text) (stages : List (StageType S A))
    (view : DescriptorView) (p q : ℕ) (r r' : DescriptorBranchCaseRecord)
    → length stages ≤ 2 ^ 64
    → total_branch_case_count stages ≤ 2 ^ 64
    → make_descriptor type_name stages ≡ some view
    → get_elem? view.branch_cases p ≡ some r
    → get_elem? view.branch_cases q ≡ some r'
    → r.case_id ≡ r'.case_id
    → p ≡ q
make_descriptor-ids type_name stages view p q r r' small few made e f same =
    let (made_view, made', _, _, cases) = make_descriptor-eq type_name stages small few in
    let listed : view.branch_cases ≡ all_records type_name 0 stages =
      ap (λ v. v.branch_cases) (some-injective _ _ (sym made ∙ made')) ∙ cases in
    let at_p = ap (λ records. get_elem? records p) (sym listed) ∙ e in
    let at_q = ap (λ records. get_elem? records q) (sym listed) ∙ f in
    let (_, id) = all_records-At type_name 0 p stages r at_p in
    let (_, id') = all_records-At type_name 0 q stages r' at_q in
    let (same_stage, same_case) = case_name-injective _ _ _ _ (sym id ∙ same ∙ id') in
    all_records-eq type_name 0 p q stages r r' at_p at_q same_stage same_case
