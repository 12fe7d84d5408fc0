-- ===== src/Builder/Sound.antt =====
-- A pipeline that the builder of include/pb/core/pipeline_state.hpp accepts hands each stage a value
-- of its input type when the engine of include/pb/runtime/sequential.hpp runs it.
use pipeline_c.Prelude.{
  ℕ, suc, ◌≡◌, refl, sym, ◌∙◌, ap, subst, Bool, some, List, All, map, Bool-cases, inl, inr,
}
use pipeline_c.Error.{StageId, Error}
use pipeline_c.Result.{Result, ok, err}
use pipeline_c.Observer.{Sink, Run, pure, ◌>>=◌}
use pipeline_c.Stage.{
  Value, atom, variant, results, Node, StageStoragePolicy, construct_stages_per_run,
  store_stages_in_engine,
}
use pipeline_c.Sequential.Engine.{
  as_outcome, visit, invoke_stage, continue_run, try_run_after_result, SequentialEngine, try_run,
}
use pipeline_c.Sequential.Slots.Spec.{run_fan_in_branch-slots}
use pipeline_c.Sequential.Yields.{
  OkAll, Promises, settle-OkAll, as_value-Promises, invoke-Promises, run_selected_branch-OkAll,
  run_stored_branch-OkAll,
}
use pipeline_c.CppType.{CppType, fan_in_results, TypeList, nth, is_type_list}
use pipeline_c.CppType.Same.{same_as-eq, invocable-nth}
use pipeline_c.Builder.{
  StageDecl, CaseDecl, StageType, plain_stage, selected_branch_node, fan_in_branch_node,
  PipelineState, Pipeline, output_types, finalize_pipeline, branch_of, node_of,
}
use pipeline_c.Builder.Reaches.{
  Shape, of, branched, type_of, Fits, exactly, each, HasInput, Reaches, done, by_stage, by_branch,
  by_fan_in,
}
use pipeline_c.Builder.Values.{
  IsObject, HasType, IsOutput, HasShape, Promised, no_type_list, HasShape-type,
}
use pipeline_c.Builder.Chain.{Built, Built-IsChain}
use pipeline_c.Builder.Checks.{if_some}
use pipeline_c.Builder.Cases.{output_types-Listed, cases-yield, case_slots-SlotsHave}

as_outcome-Promises :
    {A : Type 0} (P : Value A → Type 0) (r : Result (Value A) Error)
    → OkAll P r
    → Promises P (as_outcome r)
as_outcome-Promises P (ok v) h = h
as_outcome-Promises P (err e) h = tt

-- An output of a branch holds an object of the type of one of the cases, which a join is handed.
opened :
    {A : Type 0} (IsOf : ℕ → A → Type 0) (ts : TypeList) (v : Value A)
    → IsOutput IsOf ts v
    → (a : A) × (i : ℕ) × (u : CppType) × (nth ts i ≡ some u)
      × IsObject IsOf u a
      × (visit v ≡ atom a)
opened IsOf ts (atom a) (i, u, at, e, h) = (a, i, u, at, h, refl)
opened IsOf ts (variant i a) (u, at, e, h) = (a, i, u, at, h, refl)
opened IsOf ts (results slots) h = elim h [ ]

continue-OkAll :
    {S A : Type 0} (P Q : Value A → Type 0) (node : Node S A) (rest : List (Node S A))
    (next : Value A → Run (Result (Value A) Error × List (Node S A))) (r : Result (Value A) Error)
    (s : Sink)
    → OkAll P r
    → ((w : Value A) (s' : Sink) → P w → OkAll Q (next w s').0.0)
    → OkAll Q (continue_run node rest next r s).0.0
unfolding continue_run ◌>>=◌ pure
continue-OkAll P Q node rest next (ok w) s h k = k w s h
continue-OkAll P Q node rest next (err e) s h k = tt

module _ {S A : Type 0} (IsOf : ℕ → A → Type 0) where
  -- A plain stage keeps its type, and a join each alternative of the branch before it.
  plain_sound :
      (policy : StageStoragePolicy) (id : StageId) (decl : StageDecl S A) (sh : Shape) (v : Value A)
      (s : Sink)
      → Fits decl sh
      → Promised IsOf (plain_stage decl)
      → HasShape IsOf sh v
      → Promises
          (HasShape IsOf (of decl.output_type))
          (invoke_stage policy id (node_of (plain_stage decl)) v s).0.0
  unfolding invoke_stage node_of ◌>>=◌ pure is_type_list
  plain_sound policy id decl sh v s (exactly e) (keep, _) h =
      let typed = subst (HasType IsOf v) e (HasShape-type IsOf sh v h) in
      elim (Bool-cases (is_type_list decl.input_type)) [
        | inl listed ↦ absurd (no_type_list IsOf decl.input_type v listed typed)
        | inr other ↦ rw other (
            as_value-Promises (HasShape IsOf (of decl.output_type)) _ (
              invoke-Promises (IsObject IsOf decl.output_type) policy decl.code v
                (λ s'. keep s' v typed)))
      ]
  plain_sound policy id decl (branched ts) v s (each e invocable) (_, keep) h =
      let (a, i, u, at, typed, seen) = opened IsOf ts v h in
      let listed = ap is_type_list e in
      rw listed (
        as_value-Promises (HasShape IsOf (of decl.output_type)) _ (
          invoke-Promises (IsObject IsOf decl.output_type) policy decl.code (visit v) (λ s'.
            subst (λ w. Promises (IsObject IsOf decl.output_type) (decl.code.call s' w).0)
              (sym seen)
              (keep s' u a (invocable-nth decl.is_invocable ts i u invocable at) typed))))

  branch_sound :
      (policy : StageStoragePolicy) (id : StageId) (cases : List (CaseDecl S A)) (t : CppType)
      (v : Value A) (s : Sink)
      → All (HasInput t) cases
      → Promised IsOf (selected_branch_node cases)
      → HasType IsOf v t
      → Promises
          (IsOutput IsOf (output_types cases))
          (invoke_stage policy id (node_of (selected_branch_node cases)) v s).0.0
  unfolding invoke_stage node_of ◌>>=◌ pure
  branch_sound construct_stages_per_run id cases t v s inputs kept h =
      as_outcome-Promises (IsOutput IsOf (output_types cases)) _ (
        run_selected_branch-OkAll (IsOutput IsOf (output_types cases)) id (branch_of cases) v s (
          cases-yield IsOf (output_types cases) id t v 0 cases (output_types-Listed IsOf cases)
            inputs kept h))
  branch_sound store_stages_in_engine id cases t v s inputs kept h =
      as_outcome-Promises (IsOutput IsOf (output_types cases)) _ (
        run_stored_branch-OkAll (IsOutput IsOf (output_types cases)) id (branch_of cases) v s (
          cases-yield IsOf (output_types cases) id t v 0 cases (output_types-Listed IsOf cases)
            inputs kept h))

  fan_in_sound :
      (policy : StageStoragePolicy) (id : StageId) (cases : List (CaseDecl S A)) (t : CppType)
      (v : Value A) (s : Sink)
      → All (HasInput t) cases
      → Promised IsOf (fan_in_branch_node cases)
      → HasType IsOf v t
      → Promises
          (HasShape IsOf (of (fan_in_results (output_types cases))))
          (invoke_stage policy id (node_of (fan_in_branch_node cases)) v s).0.0
  unfolding invoke_stage node_of ◌>>=◌ pure
  fan_in_sound policy id cases t v s inputs kept h =
      as_outcome-Promises (HasShape IsOf (of (fan_in_results (output_types cases)))) _ (
        subst (OkAll (HasShape IsOf (of (fan_in_results (output_types cases)))))
          (sym (run_fan_in_branch-slots policy id v (branch_of cases) s))
          (output_types cases, refl, case_slots-SlotsHave IsOf policy id t v 0 cases inputs kept h))

  -- A run over a chain of stages gives, if anything, a value of the shape that the chain leads to.
  run_sound :
      (policy : StageStoragePolicy) (i : ℕ) {stages : List (StageType S A)} {sh sh' : Shape}
      → Reaches sh stages sh'
      → All (Promised IsOf) stages
      → (v : Value A) (s : Sink) → HasShape IsOf sh v
      → OkAll (HasShape IsOf sh') (try_run_after_result policy i (map node_of stages) v s).0.0
  unfolding try_run_after_result ◌>>=◌ pure
  run_sound policy i done promised v s h = h
  run_sound policy i {sh = sh} {sh' = sh'} (by_stage {decl} f r) (here, others) v s h =
      continue-OkAll (HasShape IsOf (of decl.output_type)) (HasShape IsOf sh') _ _ _ _ _
        (settle-OkAll (HasShape IsOf (of decl.output_type)) _ _ _
          (plain_sound policy _ decl sh v _ f here h))
        (λ w s'. run_sound policy (suc i) r others w s')
  run_sound policy i {sh = sh} {sh' = sh'} (by_branch {cases} f r) (here, others) v s h =
      continue-OkAll (IsOutput IsOf (output_types cases)) (HasShape IsOf sh') _ _ _ _ _
        (settle-OkAll (IsOutput IsOf (output_types cases)) _ _ _
          (branch_sound policy _ cases (type_of sh) v _ f here (HasShape-type IsOf sh v h)))
        (λ w s'. run_sound policy (suc i) r others w s')
  run_sound policy i {sh = sh} {sh' = sh'} (by_fan_in {cases} f r) (here, others) v s h =
      continue-OkAll (HasShape IsOf (of (fan_in_results (output_types cases)))) (HasShape IsOf sh')
        _ _ _ _ _
        (settle-OkAll (HasShape IsOf (of (fan_in_results (output_types cases)))) _ _ _
          (fan_in_sound policy _ cases (type_of sh) v _ f here (HasShape-type IsOf sh v h)))
        (λ w s'. run_sound policy (suc i) r others w s')

OkAll-map :
    {B E : Type 0} (P Q : B → Type 0) (r : Result B E)
    → ((b : B) → P b → Q b)
    → OkAll P r
    → OkAll Q r
OkAll-map P Q (ok b) f h = f b h
OkAll-map P Q (err e) f h = tt

pipeline-Reaches :
    {S A : Type 0} (copyable : CppType → Bool) (state : PipelineState S A) (output : CppType)
    (pipeline : Pipeline S A)
    → Built copyable state
    → finalize_pipeline state output ≡ some pipeline
    → (last : Shape) × Reaches (of pipeline.input_type) pipeline.stages last
      × (type_of last ≡ pipeline.output_type)
unfolding finalize_pipeline
pipeline-Reaches copyable state output pipeline built accepted =
    let chain = Built-IsChain copyable state built in
    let (same, e) = if_some _ _ _ accepted in
    (
      chain.last,
      subst (λ p. Reaches (of p.input_type) p.stages chain.last) e chain.leads,
      chain.current ∙ same_as-eq _ _ same ∙ ap (λ p. p.output_type) e,
    )

module _ {S A : Type 0} (IsOf : ℕ → A → Type 0) (copyable : CppType → Bool)
    (state : PipelineState S A) (output : CppType) (pipeline : Pipeline S A)
    (built : Built copyable state) (accepted : finalize_pipeline state output ≡ some pipeline)
    (promised : All (Promised IsOf) pipeline.stages) where
  -- A pipeline that the builder accepts is well typed: if each of its stages gives, for values of its
  -- input type, objects of its output type, then an engine with these stages gives, for every value
  -- of the pipeline's input type, a value of its output type or an error.
  pub try_run-HasType :
      (engine : SequentialEngine S A) (input : Value A)
      → engine.stages ≡ map node_of pipeline.stages
      → HasType IsOf input pipeline.input_type
      → OkAll (λ v. HasType IsOf v pipeline.output_type) (try_run engine input).0
  unfolding try_run
  try_run-HasType engine input e h =
      let (last, leads, typed) = pipeline-Reaches copyable state output pipeline built accepted in
      subst
        (λ stages.
          OkAll (λ v. HasType IsOf v pipeline.output_type)
            (try_run_after_result engine.policy 0 stages input engine.observer).0.0)
        (sym e)
        (OkAll-map (HasShape IsOf last) (λ v. HasType IsOf v pipeline.output_type) _
          (λ v shaped. subst (HasType IsOf v) typed (HasShape-type IsOf last v shaped))
          (run_sound IsOf engine.policy 0 leads promised input engine.observer h))
