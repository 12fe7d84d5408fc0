-- ===== src/Stage.antt =====
-- The parts that a finished pipeline is made of: callables with the state of their object, branch
-- cases and branch nodes (include/pb/core/pipeline_state.hpp), what passes from one stage to the
-- next, and the identities of stages (include/pb/runtime/sequential.hpp).
use pipeline_c.Prelude.{ℕ, Bool, Option, List, ◌++◌, codes, Text, text_eq, decimal, if◌then◌else◌}
use pipeline_c.Error.{StageId}
use pipeline_c.Result.{Returned}

-- enum class fan_in_case_state
pub data FanInCaseState : Type 0 where
  skipped completed failed : FanInCaseState

-- `fan_in_case_result`, one slot of a `fan_in_results`
pub record FanInCaseResult (A : Type 0) : Type 0 where
  pub index : ℕ
  pub state : FanInCaseState
  pub value : Option A
  pub diagnostic : Option Text

-- The static types of C++ are erased: `A` is what stages return, and this is what a stage may be
-- given. A branch with several output types passes on a `std::variant`, a fan-in the results of
-- all its cases.
pub data Value (A : Type 0) : Type 0 where
  atom : A → Value A
  variant : (case_index : ℕ) → A → Value A
  results : List (FanInCaseResult A) → Value A

-- A call returns, throws a `std::exception` with a text, or throws anything else.
pub data Outcome (B : Type 0) : Type 0 where
  returned : Returned B → Outcome B
  thrown : (what : Text) → Outcome B
  thrown_unknown : Outcome B

-- An object of a stage or predicate type: the type's name and key, the state of a new object, its
-- `operator()`, and the state of this object. `S` is the type of object states.
pub record Callable (S A B : Type 0) : Type 0 where
  pub key : Text
  pub name : Text
  pub initial : S
  pub call : S → Value A → Outcome B × S
  pub object : S

-- `branch_case<Predicate, BranchStage>`
pub record Case (S A : Type 0) : Type 0 where
  pub predicate : Callable S A Bool
  pub stage : Callable S A A

-- A branch node, with its `predicates_` and `branch_stages_` in its cases.
pub record BranchNode (S A : Type 0) : Type 0 where
  pub homogeneous : Bool
  pub cases : List (Case S A)

-- The kinds of stage that `invoke_stage` tells apart; `type_list_join` is a stage whose input type
-- is a `type_list`.
pub data Node (S A : Type 0) : Type 0 where
  stage : Callable S A A → Node S A
  type_list_join : Callable S A A → Node S A
  selected_branch : BranchNode S A → Node S A
  fan_in_branch : BranchNode S A → Node S A

pub data StageStoragePolicy : Type 0 where
  construct_stages_per_run store_stages_in_engine : StageStoragePolicy

-- `stage_traits::key()` and `name()`; the branch nodes name themselves.
unfoldable pub node_key : {S A : Type 0} → Node S A → Text
node_key (stage c) = c.key
node_key (type_list_join c) = c.key
node_key (selected_branch b) = codes "branch"
node_key (fan_in_branch b) = codes "fan_in"

unfoldable pub node_name : {S A : Type 0} → Node S A → Text
node_name (stage c) = c.name
node_name (type_list_join c) = c.name
node_name (selected_branch b) = codes "branch"
node_name (fan_in_branch b) = codes "fan_in"

-- The identity of a stage type with this key and name, and the key to use if it has none.
unfoldable pub stage_id_for_fallback : (stage_key stage_name fallback_key : Text) → StageId
unfolding text_eq
stage_id_for_fallback stage_key stage_name fallback_key =
    if text_eq stage_key (codes "<unnamed>")
    then record { key = fallback_key; name = stage_name }
    else record { key = stage_key; name = stage_name }

-- `stage_id_for<Stage>(stage_index)`
unfoldable pub stage_id_for : {S A : Type 0} → Node S A → ℕ → StageId
unfolding node_key node_name stage_id_for_fallback decimal
stage_id_for node stage_index =
    stage_id_for_fallback (node_key node) (node_name node) (decimal stage_index)

-- `branch_child_stage_id`, in a branch whose identity is `branch`
unfoldable pub branch_child_stage_id :
    {S A B : Type 0}
    → (branch : StageId) → Callable S A B
    → (case_index : ℕ) (role : Text) → StageId
unfolding stage_id_for_fallback decimal
branch_child_stage_id branch c case_index role =
    stage_id_for_fallback c.key c.name
      (branch.key ++ (codes ".case." ++ (decimal case_index ++ (codes "." ++ role))))
