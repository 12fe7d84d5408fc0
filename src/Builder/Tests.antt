-- ===== src/Builder/Tests.antt =====
-- A pipeline with a fan-in, step by step, and the theorems at it.
use pipeline_c.Prelude.{
  ℕ, zero, suc, ◌%◌, ◌≡◌, refl, Bool, true, some, none, List, [], ◌∷◌, All, map, arith,
}
use pipeline_c.Stage.{Callable, atom, construct_stages_per_run}
use pipeline_c.Sequential.Engine.{SequentialEngine, try_run}
use pipeline_c.Sequential.Yields.{OkAll}
use pipeline_c.Sample.{always, is_small, double}
use pipeline_c.CppType.{
  CppType, class, fan_in_results, nil, cons, same_as, same_types, all_same,
  branch_output_type_or_variant,
}
use pipeline_c.Builder.{
  StageDecl, CaseDecl, plain_stage, selected_branch_node, fan_in_branch_node, PipelineState,
  Pipeline, output_types, is_valid_case, same_input, are_valid_cases, all_const_predicates,
  all_const_stages, from, append_stage, push_branch, last_branch, replace_back, finalize_pipeline,
  node_of, append_branch, can_fan_in, fan_in_cases, append_fan_in,
}
use pipeline_c.Builder.Chain.{Built, started, then_stage, branch, fan_in}
use pipeline_c.Builder.Values.{HasType, Promised}
use pipeline_c.Builder.Sound.{try_run-HasType}

-- Class 0 has all numbers, every other class the even ones.
abbrev IsOf : ℕ → ℕ → Type 0
IsOf zero a = Unit
IsOf (suc n) a = a % 2 ≡ 0

abbrev decl : CppType → CppType → Callable ℕ ℕ ℕ → StageDecl ℕ ℕ
decl input output code = record {
  input_type = input;
  output_type = output;
  is_invocable = λ t. same_as t input;
  is_const_invocable = true;
  code = code;
}

abbrev first : StageDecl ℕ ℕ
first = decl (class 0) (class 1) double

abbrev cases : List (CaseDecl ℕ ℕ)
cases =
    record {
      predicate_input = class 1;
      has_bool_output = true;
      is_const_predicate = true;
      predicate = always;
      target = decl (class 1) (class 1) double;
      case_label = [];
    }
    ∷ record {
      predicate_input = class 1;
      has_bool_output = true;
      is_const_predicate = true;
      predicate = is_small;
      target = decl (class 1) (class 1) double;
      case_label = [];
    }
    ∷ []

abbrev results_type : CppType
results_type = fan_in_results (cons (class 1) (cons (class 1) nil))

abbrev count : StageDecl ℕ ℕ
count = decl results_type (class 1) double

abbrev all_types : CppType → Bool
all_types t = true

abbrev opened_pipeline : PipelineState ℕ ℕ
opened_pipeline = record { input_type = class 0; current_type = class 0; stages = [] }

abbrev doubled : PipelineState ℕ ℕ
doubled = record { input_type = class 0; current_type = class 1; stages = plain_stage first ∷ [] }

abbrev branched_pipeline : PipelineState ℕ ℕ
branched_pipeline = record {
  input_type = class 0;
  current_type = class 1;
  stages = plain_stage first ∷ selected_branch_node cases ∷ [];
}

abbrev counted : PipelineState ℕ ℕ
counted = record {
  input_type = class 0;
  current_type = class 1;
  stages = plain_stage first ∷ fan_in_branch_node cases ∷ plain_stage count ∷ [];
}

abbrev finished : Pipeline ℕ ℕ
finished = record {
  input_type = class 0;
  output_type = class 1;
  stages = plain_stage first ∷ fan_in_branch_node cases ∷ plain_stage count ∷ [];
}

-- A stage that takes another class is refused, and so is a branch without cases.
wrong_stage : append_stage doubled first ≡ none
unfolding append_stage same_as
wrong_stage = refl

no_cases : append_branch all_types doubled [] ≡ none
unfolding append_branch
no_cases = refl

-- A fan-in needs a branch before it.
no_branch : append_fan_in all_types doubled count ≡ none
unfolding append_fan_in fan_in_cases last_branch
no_branch = refl

counted-Built : Built all_types counted
unfolding append_fan_in fan_in_cases last_branch replace_back can_fan_in all_const_stages
    all_const_predicates append_branch push_branch are_valid_cases is_valid_case same_input same_as
    same_types all_same branch_output_type_or_variant output_types append_stage from
counted-Built =
    fan_in branched_pipeline count
      (branch doubled cases (then_stage opened_pipeline first (started (class 0) refl) refl) refl)
      refl

finished-accepted : finalize_pipeline counted (class 1) ≡ some finished
unfolding finalize_pipeline same_as
finished-accepted = refl

finished-Promised : All (Promised IsOf) finished.stages
finished-Promised = (
  ((λ s v h. omega arith), (λ s t a i h. omega arith)),
  (
    ((λ s v h. omega arith), ((λ s v h. omega arith), tt)),
    (((λ s v h. omega arith), (λ s t a i h. omega arith)), tt),
  ),
)

abbrev engine : SequentialEngine ℕ ℕ
engine = record {
  policy = construct_stages_per_run;
  stages = map node_of finished.stages;
  observer = none;
}

try_run-HasType_example : OkAll (λ v. HasType IsOf v (class 1)) (try_run engine (atom 5)).0
try_run-HasType_example =
    try_run-HasType IsOf all_types counted (class 1) finished counted-Built finished-accepted
      finished-Promised engine (atom 5) refl tt
