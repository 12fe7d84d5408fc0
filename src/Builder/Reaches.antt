-- ===== src/Builder/Reaches.antt =====
-- Lists of stages of include/pb/core/pipeline_state.hpp whose types fit.
use pipeline_c.Prelude.{◌≡◌, ap, subst, true, some, some-injective, List, [], ◌∷◌, ◌++◌, All}
use pipeline_c.CppType.{
  CppType, fan_in_results, type_list, TypeList, branch_output_type_or_variant,
  invocable_for_output_types,
}
use pipeline_c.Builder.{
  StageDecl, CaseDecl, StageType, plain_stage, selected_branch_node, fan_in_branch_node,
  output_types, last_branch, replace_back,
}

-- What stands between two stages: a value of a type, or what a selected branch gives.
pub data Shape : Type 0 where
  of : CppType → Shape
  branched : TypeList → Shape

abbrev pub type_of : Shape → CppType
type_of (of t) = t
type_of (branched ts) = branch_output_type_or_variant ts

module _ {S A : Type 0} where
  -- A stage takes what stands before it as it is, or the outputs of a branch one by one.
  pub data Fits (decl : StageDecl S A) : Shape → Type 0 where
    exactly : {sh : Shape} → type_of sh ≡ decl.input_type → Fits decl sh
    each :
        {ts : TypeList}
        → decl.input_type ≡ type_list ts
        → invocable_for_output_types decl.is_invocable ts ≡ true
        → Fits decl (branched ts)

  -- All cases of a branch have this input type.
  abbrev pub HasInput : CppType → CaseDecl S A → Type 0
  HasInput t c = t ≡ c.target.input_type

  -- A list of stages that leads from one shape to another.
  pub data Reaches : Shape → List (StageType S A) → Shape → Type 0 where
    done : {sh : Shape} → Reaches sh [] sh
    by_stage :
        {decl : StageDecl S A} {rest : List (StageType S A)} {sh sh' : Shape}
        → Fits decl sh
        → Reaches (of decl.output_type) rest sh'
        → Reaches sh (plain_stage decl ∷ rest) sh'
    by_branch :
        {cases : List (CaseDecl S A)} {rest : List (StageType S A)} {sh sh' : Shape}
        → All (HasInput (type_of sh)) cases
        → Reaches (branched (output_types cases)) rest sh'
        → Reaches sh (selected_branch_node cases ∷ rest) sh'
    by_fan_in :
        {cases : List (CaseDecl S A)} {rest : List (StageType S A)} {sh sh' : Shape}
        → All (HasInput (type_of sh)) cases
        → Reaches (of (fan_in_results (output_types cases))) rest sh'
        → Reaches sh (fan_in_branch_node cases ∷ rest) sh'

  pub Reaches-append :
      {sh sh' sh'' : Shape} {xs ys : List (StageType S A)}
      → Reaches sh xs sh'
      → Reaches sh' ys sh''
      → Reaches sh (xs ++ ys) sh''
  Reaches-append done r = r
  Reaches-append (by_stage f q) r = by_stage f (Reaches-append q r)
  Reaches-append (by_branch f q) r = by_branch f (Reaches-append q r)
  Reaches-append (by_fan_in f q) r = by_fan_in f (Reaches-append q r)

  -- What a list of stages that ends in a branch leads to.
  pub last_branch-branched :
      (cases : List (CaseDecl S A)) {sh sh' : Shape} {xs : List (StageType S A)}
      → Reaches sh xs sh'
      → last_branch xs ≡ some cases
      → sh' ≡ branched (output_types cases)
  unfolding last_branch
  last_branch-branched cases done e = cc
  last_branch-branched cases (by_stage f done) e = cc
  last_branch-branched cases (by_stage f (by_stage g q)) e =
      last_branch-branched cases (by_stage g q) e
  last_branch-branched cases (by_stage {decl} f (by_branch g q)) e =
      last_branch-branched cases {sh = of decl.output_type} (by_branch g q) e
  last_branch-branched cases (by_stage {decl} f (by_fan_in g q)) e =
      last_branch-branched cases {sh = of decl.output_type} (by_fan_in g q) e
  last_branch-branched cases (by_branch f done) e =
      ap (λ c. branched (output_types c)) (some-injective _ _ e)
  last_branch-branched cases (by_branch f (by_stage g q)) e =
      last_branch-branched cases (by_stage g q) e
  last_branch-branched cases (by_branch {cases = cs} f (by_branch g q)) e =
      last_branch-branched cases {sh = branched (output_types cs)} (by_branch g q) e
  last_branch-branched cases (by_branch {cases = cs} f (by_fan_in g q)) e =
      last_branch-branched cases {sh = branched (output_types cs)} (by_fan_in g q) e
  last_branch-branched cases (by_fan_in f done) e = cc
  last_branch-branched cases (by_fan_in f (by_stage g q)) e =
      last_branch-branched cases (by_stage g q) e
  last_branch-branched cases (by_fan_in {cases = cs} f (by_branch g q)) e =
      last_branch-branched cases {sh = of (fan_in_results (output_types cs))} (by_branch g q) e
  last_branch-branched cases (by_fan_in {cases = cs} f (by_fan_in g q)) e =
      last_branch-branched cases {sh = of (fan_in_results (output_types cs))} (by_fan_in g q) e

  -- The branch at the end becomes a fan-in.
  pub replace_back-Reaches :
      (cases : List (CaseDecl S A)) {sh sh' : Shape} {xs : List (StageType S A)}
      → Reaches sh xs sh'
      → last_branch xs ≡ some cases
      → Reaches sh
          (replace_back xs (fan_in_branch_node cases))
          (of (fan_in_results (output_types cases)))
  unfolding last_branch replace_back
  replace_back-Reaches cases done e = cc
  replace_back-Reaches cases (by_stage f done) e = cc
  replace_back-Reaches cases (by_stage f (by_stage g q)) e =
      by_stage f (replace_back-Reaches cases (by_stage g q) e)
  replace_back-Reaches cases (by_stage f (by_branch g q)) e =
      by_stage f (replace_back-Reaches cases (by_branch g q) e)
  replace_back-Reaches cases (by_stage f (by_fan_in g q)) e =
      by_stage f (replace_back-Reaches cases (by_fan_in g q) e)
  replace_back-Reaches cases {sh} (by_branch f done) e =
      by_fan_in (subst (All (HasInput (type_of sh))) (some-injective _ _ e) f) done
  replace_back-Reaches cases (by_branch f (by_stage g q)) e =
      by_branch f (replace_back-Reaches cases (by_stage g q) e)
  replace_back-Reaches cases (by_branch f (by_branch g q)) e =
      by_branch f (replace_back-Reaches cases (by_branch g q) e)
  replace_back-Reaches cases (by_branch f (by_fan_in g q)) e =
      by_branch f (replace_back-Reaches cases (by_fan_in g q) e)
  replace_back-Reaches cases (by_fan_in f done) e = cc
  replace_back-Reaches cases (by_fan_in f (by_stage g q)) e =
      by_fan_in f (replace_back-Reaches cases (by_stage g q) e)
  replace_back-Reaches cases (by_fan_in f (by_branch g q)) e =
      by_fan_in f (replace_back-Reaches cases (by_branch g q) e)
  replace_back-Reaches cases (by_fan_in f (by_fan_in g q)) e =
      by_fan_in f (replace_back-Reaches cases (by_fan_in g q) e)
