-- ===== src/Builder/Chain.antt =====
-- Every state that the builder of include/pb/core/pipeline_state.hpp accepts is a chain of stages
-- whose types fit.
use pipeline_c.Prelude.{
  ◌≡◌, refl, sym, ◌∙◌, subst, inl, inr, Bool, true, Option, none, some, some-injective,
  and_then-some, List, [], ◌∷◌, ◌++◌, All,
}
use pipeline_c.CppType.{CppType, TypeList}
use pipeline_c.CppType.Same.{same_as-eq}
use pipeline_c.Builder.{
  StageDecl, CaseDecl, plain_stage, PipelineState, output_types, is_valid_case, same_input,
  are_valid_cases, from, append_stage, append_stages, push_branch, last_branch,
  join_stage_accepts_outputs, join_branch, append_join, append_branch, fan_in_cases, append_fan_in,
}
use pipeline_c.Builder.Checks.{if_some, or_cases, and_cases}
use pipeline_c.Builder.Reaches.{
  Shape, of, branched, type_of, Fits, exactly, each, HasInput, Reaches, done, by_stage, by_branch,
  Reaches-append, last_branch-branched, replace_back-Reaches,
}

module _ {S A : Type 0} where
  -- A state whose stages lead from its input type to its current type.
  pub record IsChain (state : PipelineState S A) : Type 0 where
    pub last : Shape
    pub leads : Reaches (of state.input_type) state.stages last
    pub current : type_of last ≡ state.current_type

  from-IsChain : (t : CppType) → IsChain (from t)
  unfolding from
  from-IsChain t = record { last = of t; leads = done; current = refl }

  -- A stage at the end.
  push_stage :
      (state : PipelineState S A) (decl : StageDecl S A) (last : Shape)
      → Reaches (of state.input_type) state.stages last
      → Fits decl last
      → IsChain (record state {
        current_type = decl.output_type;
        stages = state.stages ++ plain_stage decl ∷ [];
      })
  push_stage state decl last r f = record {
    last = of decl.output_type;
    leads = Reaches-append r (by_stage f done);
    current = refl;
  }

  append_stage-IsChain :
      (state state' : PipelineState S A) (decl : StageDecl S A)
      → append_stage state decl ≡ some state'
      → IsChain state
      → IsChain state'
  unfolding append_stage
  append_stage-IsChain state state' decl e chain =
      let (same, eq) = if_some _ _ _ e in
      subst IsChain eq (
        push_stage state decl chain.last chain.leads
          (exactly (chain.current ∙ same_as-eq _ _ same)))

  accepts-Fits :
      (outputs : TypeList) (decl : StageDecl S A)
      → join_stage_accepts_outputs outputs decl ≡ true
      → Fits decl (branched outputs)
  unfolding join_stage_accepts_outputs
  accepts-Fits outputs decl h = elim (or_cases _ _ h) [
    | inl unified ↦ exactly (sym (same_as-eq _ _ unified))
    | inr raw ↦ let (same, invocable) = and_cases _ _ raw in each (same_as-eq _ _ same) invocable
  ]

  join_branch-IsChain :
      (state state' : PipelineState S A) (decl : StageDecl S A)
      (found : Option (List (CaseDecl S A)))
      → last_branch state.stages ≡ found
      → join_branch state decl found ≡ some state'
      → IsChain state
      → IsChain state'
  unfolding join_branch
  join_branch-IsChain state state' decl none at_end e chain = cc
  join_branch-IsChain state state' decl (some cases) at_end e chain =
      let (accepted, eq) = if_some _ _ _ e in
      subst IsChain eq (
        push_stage state decl (branched (output_types cases))
          (subst (Reaches (of state.input_type) state.stages)
            (last_branch-branched cases chain.leads at_end) chain.leads)
          (accepts-Fits (output_types cases) decl accepted))

  fan_in_cases-IsChain :
      (copyable : CppType → Bool) (state state' : PipelineState S A) (decl : StageDecl S A)
      (found : Option (List (CaseDecl S A)))
      → last_branch state.stages ≡ found
      → fan_in_cases copyable state decl found ≡ some state'
      → IsChain state
      → IsChain state'
  unfolding fan_in_cases
  fan_in_cases-IsChain copyable state state' decl none at_end e chain = cc
  fan_in_cases-IsChain copyable state state' decl (some cases) at_end e chain =
      let (checked, eq) = if_some _ _ _ e in
      let (_, same) = and_cases _ _ checked in
      subst IsChain eq (record {
        last = of decl.output_type;
        leads =
            Reaches-append (replace_back-Reaches cases chain.leads at_end)
              (by_stage (exactly (sym (same_as-eq _ _ same))) done);
        current = refl;
      })

  -- Checked cases have the input type that the branch is checked for.
  cases-HasInput :
      (t u : CppType) (cases : List (CaseDecl S A))
      → t ≡ u
      → are_valid_cases cases ≡ true
      → same_input u cases ≡ true
      → All (HasInput t) cases
  unfolding are_valid_cases is_valid_case same_input
  cases-HasInput t u [] e valid same = tt
  cases-HasInput t u (c ∷ cases) e valid same =
      let (here, rest) = and_cases _ _ valid in
      let (_, target) = and_cases _ _ here in
      let (input, others) = and_cases _ _ same in
      (e ∙ same_as-eq _ _ input ∙ same_as-eq _ _ target, cases-HasInput t u cases e rest others)

  append_branch-IsChain :
      (copyable : CppType → Bool) (state state' : PipelineState S A) (cases : List (CaseDecl S A))
      → append_branch copyable state cases ≡ some state'
      → IsChain state
      → IsChain state'
  unfolding append_branch push_branch are_valid_cases is_valid_case
  append_branch-IsChain copyable state state' [] e chain = cc
  append_branch-IsChain copyable state state' (c ∷ cases) e chain =
      let (checked, eq) = if_some _ _ _ e in
      let (current, checked') = and_cases _ _ checked in
      let (valid, checked'') = and_cases _ _ checked' in
      let (same, _) = and_cases _ _ checked'' in
      let (first, rest) = and_cases _ _ valid in
      let input = chain.current ∙ same_as-eq _ _ current in
      subst IsChain eq (record {
        last = branched (output_types (c ∷ cases));
        leads = Reaches-append chain.leads (
            by_branch
              (
                input ∙ same_as-eq _ _ (and_cases _ _ first).1,
                cases-HasInput _ _ cases input rest same,
              )
              done);
        current = refl;
      })

  append_stages-IsChain :
      (before state : PipelineState S A) (decls : List (StageDecl S A))
      → append_stages before decls ≡ some state
      → IsChain before
      → IsChain state
  unfolding append_stages
  append_stages-IsChain before state [] e chain = subst IsChain (some-injective _ _ e) chain
  append_stages-IsChain before state (decl ∷ decls) e chain =
      let (next, first, rest) = and_then-some _ _ _ e in
      append_stages-IsChain next state decls rest
        (append_stage-IsChain before next decl first chain)

  -- The states that the builder's steps lead to.
  pub data Built (copyable : CppType → Bool) : PipelineState S A → Type 0 where
    started : {state : PipelineState S A} (t : CppType) → state ≡ from t → Built copyable state
    then_stage :
        {state : PipelineState S A} (before : PipelineState S A) (decl : StageDecl S A)
        → Built copyable before
        → append_stage before decl ≡ some state
        → Built copyable state
    then_stages :
        {state : PipelineState S A} (before : PipelineState S A) (decls : List (StageDecl S A))
        → Built copyable before
        → append_stages before decls ≡ some state
        → Built copyable state
    branch :
        {state : PipelineState S A} (before : PipelineState S A) (cases : List (CaseDecl S A))
        → Built copyable before
        → append_branch copyable before cases ≡ some state
        → Built copyable state
    join :
        {state : PipelineState S A} (before : PipelineState S A) (decl : StageDecl S A)
        → Built copyable before
        → append_join before decl ≡ some state
        → Built copyable state
    fan_in :
        {state : PipelineState S A} (before : PipelineState S A) (decl : StageDecl S A)
        → Built copyable before
        → append_fan_in copyable before decl ≡ some state
        → Built copyable state

  -- Whatever steps the builder accepts, the stages of its state lead from the input type to the
  -- current type: each stage takes what the one before it gives, a join the output of the branch
  -- before it or each of its outputs, and all cases of a branch the same type.
  pub Built-IsChain :
      (copyable : CppType → Bool) (state : PipelineState S A) → Built copyable state → IsChain state
  unfolding append_join append_fan_in
  Built-IsChain copyable state (started t e) = subst IsChain (sym e) (from-IsChain t)
  Built-IsChain copyable state (then_stage before decl b e) =
      append_stage-IsChain before state decl e (Built-IsChain copyable before b)
  Built-IsChain copyable state (then_stages before decls b e) =
      append_stages-IsChain before state decls e (Built-IsChain copyable before b)
  Built-IsChain copyable state (branch before cases b e) =
      append_branch-IsChain copyable before state cases e (Built-IsChain copyable before b)
  Built-IsChain copyable state (join before decl b e) =
      join_branch-IsChain before state decl (last_branch before.stages) refl e
        (Built-IsChain copyable before b)
  Built-IsChain copyable state (fan_in before decl b e) =
      fan_in_cases-IsChain copyable before state decl (last_branch before.stages) refl e
        (Built-IsChain copyable before b)
