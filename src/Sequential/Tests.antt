-- ===== src/Sequential/Tests.antt =====
-- A small pipeline, runs of it, and the theorems at it.
use pipeline_c.Prelude.{
  ℕ, ◌+◌, ◌*◌, ◌≡◌, refl, Bool, true, false, some, none, List, [], ◌∷◌, ◌++◌, codes, Text, map, ltb,
  ◌==◌, if◌then◌else◌, decimal, text_eq, length,
}
use pipeline_c.Error.{Error, StageId, has_stage, has_message, expected_error}
use pipeline_c.Result.{
  ok, err, string, plain, own_result, to_result, normalize_expected_error, error_message_from,
}
use pipeline_c.Observer.{Event, on_fan_in_completed, send, pure, notify, ◌>>=◌}
use pipeline_c.Observer.Emits.{deliver}
use pipeline_c.Stage.{
  Value, atom, variant, results, Outcome, returned, thrown, Callable, BranchNode, Node, stage,
  type_list_join, completed, failed, skipped, selected_branch, fan_in_branch,
  construct_stages_per_run, store_stages_in_engine, stage_id_for, branch_child_stage_id, node_key,
  node_name, stage_id_for_fallback,
}
use pipeline_c.Sequential.Calls.{
  annotate_stage_error, observer_error_for, exception_error, unknown_exception_error,
  normalize_stage_error, notify_stage_failure, notify_stage_exception, invoke, conclude, settle,
  mark_branch_error,
}
use pipeline_c.Sequential.Branch.{
  selected_branch_success, unselected_branch_error, start_progress, evaluate_predicate,
  run_branch_stage, decide_case, try_case, process, process_cases, run_selected_branch,
  decide_stored_case, run_selected_branch_cases_with_storage, run_stored_branch,
}
use pipeline_c.Sequential.FanIn.{
  run_fan_in_case_stage, decide_fan_in_case, run_fan_in_case, continue_cases, run_fan_in_cases,
  run_fan_in_branch_impl, run_fan_in_branch,
}
use pipeline_c.Sequential.Settling.{
  mark_completed, mark_failed, is_failed, is_completed, count_stage, fail_case, settle_case,
  settle_fan_in_stage,
}
use pipeline_c.Sequential.Engine.{
  invoke_stage, continue_run, try_run_after_result, SequentialEngine, try_run, try_run_range,
}
use pipeline_c.Sequential.Balanced.{track}
use pipeline_c.Sequential.Balanced.Runs.{try_run-IsBalanced, try_run-observer}
use pipeline_c.Sequential.Compose.{run_rest, try_run-append}
use pipeline_c.Sequential.Slots.{case_slots}
use pipeline_c.Sequential.Slots.Spec.{run_fan_in_branch-slots, run_fan_in_branch-tally}
use pipeline_c.Sequential.Fresh.{shown, run_stored_branch-eq}
use pipeline_c.Sequential.Stateless.{try_run_range-eq-map}
use pipeline_c.Sequential.Attribution.{Reported, try_run-Reported}

-- Opens what a run computes with.
opened : Unit {0}
unfolding has_stage has_message to_result normalize_expected_error error_message_from send pure
    notify ◌>>=◌ stage_id_for branch_child_stage_id node_key node_name stage_id_for_fallback text_eq
    decimal annotate_stage_error observer_error_for exception_error unknown_exception_error
    normalize_stage_error notify_stage_failure notify_stage_exception invoke conclude settle
    mark_branch_error selected_branch_success unselected_branch_error start_progress
    evaluate_predicate run_branch_stage decide_case try_case process process_cases
    run_selected_branch decide_stored_case run_selected_branch_cases_with_storage run_stored_branch
    mark_completed mark_failed is_failed is_completed count_stage fail_case settle_case
    settle_fan_in_stage run_fan_in_case_stage decide_fan_in_case run_fan_in_case continue_cases
    run_fan_in_cases run_fan_in_branch_impl run_fan_in_branch invoke_stage continue_run
    try_run_after_result try_run try_run_range
opened = tt

abbrev number : Value ℕ → ℕ
number (atom n) = n
number (variant i n) = n
number (results slots) = length slots

abbrev callable : {B : Type 0} → Text → (ℕ → ℕ → Outcome B) → Callable ℕ ℕ B
callable name f = record {
  key = name;
  name = name;
  initial = 0;
  call = λ s input. (f s (number input), s + 1);
  object = 0;
}

abbrev double : Callable ℕ ℕ ℕ
double = callable (codes "double") (λ s n. returned (plain (n * 2)))

-- adds the number of earlier calls of the object
abbrev count_calls : Callable ℕ ℕ ℕ
count_calls = callable (codes "calls") (λ s n. returned (plain (n + s)))

abbrev nonzero : Callable ℕ ℕ ℕ
nonzero =
    callable (codes "nonzero")
      (λ s n. returned (own_result (if n == 0 then err (string (codes "zero")) else ok n)))

abbrev throwing : Callable ℕ ℕ ℕ
throwing = callable (codes "throwing") (λ s n. thrown (codes "boom"))

abbrev is_small : Callable ℕ ℕ Bool
is_small = callable (codes "<unnamed>") (λ s n. returned (plain (ltb n 10)))

abbrev is_any : Callable ℕ ℕ Bool
is_any = callable (codes "any") (λ s n. returned (plain true))

abbrev node : BranchNode ℕ ℕ
node = record {
  homogeneous = false;
  cases =
      record { predicate = is_small; stage = double }
      ∷ record { predicate = is_any; stage = nonzero }
      ∷ record { predicate = is_any; stage = throwing }
      ∷ [];
}

abbrev engine : List (Node ℕ ℕ) → SequentialEngine ℕ ℕ
engine nodes = record { policy = construct_stages_per_run; stages = nodes; observer = some [] }

abbrev all_nodes : List (Node ℕ ℕ)
all_nodes =
    stage count_calls ∷ selected_branch node ∷ type_list_join double ∷ fan_in_branch node ∷ []

small_run :
    (try_run (engine (stage double ∷ selected_branch node ∷ [])) (atom 3)).0 ≡ ok (variant 0 12)
unfolding opened
small_run = refl

second_case :
    (try_run (engine (selected_branch node ∷ type_list_join double ∷ [])) (atom 30)).0
    ≡ ok (atom 60)
unfolding opened
second_case = refl

failed_run :
    (try_run (engine (stage nonzero ∷ stage double ∷ [])) (atom 0)).0
    ≡ err (record {
      stage = record { key = codes "nonzero"; name = codes "nonzero" };
      category = expected_error;
      message = codes "zero";
    })
unfolding opened
failed_run = refl

fan_in_run :
    (try_run (engine (fan_in_branch node ∷ [])) (atom 30)).0
    ≡ ok (
        results (
          record { index = 0; state = skipped; value = none; diagnostic = none }
          ∷ record { index = 1; state = completed; value = some 30; diagnostic = none }
          ∷ record { index = 2; state = failed; value = none; diagnostic = some (codes "boom") }
          ∷ []))
unfolding opened
fan_in_run = refl

stored_runs :
    (try_run_range
      (record (engine (stage count_calls ∷ [])) { policy = store_stages_in_engine })
      (atom 5 ∷ atom 5 ∷ [])).0
    ≡ ok (atom 5) ∷ ok (atom 6) ∷ []
unfolding opened
stored_runs = refl

try_run-IsBalanced_example :
    (events : List Event) × ((try_run (engine all_nodes) (atom 30)).1.observer
      ≡ deliver events (some []))
    × (track events [] ≡ some [])
try_run-IsBalanced_example = try_run-IsBalanced (engine all_nodes) (atom 30)

try_run-observer_example :
    ((try_run (record (engine all_nodes) { observer = none }) (atom 30)).0
      ≡ (try_run (engine all_nodes) (atom 30)).0)
    × ((try_run (record (engine all_nodes) { observer = none }) (atom 30)).1.stages
        ≡ (try_run (engine all_nodes) (atom 30)).1.stages)
try_run-observer_example = try_run-observer (engine all_nodes) (atom 30) none

try_run-append_example :
    try_run_after_result store_stages_in_engine 0
      (all_nodes ++ stage nonzero ∷ [])
      (atom 1)
      (some [])
    ≡ (try_run_after_result store_stages_in_engine 0 all_nodes (atom 1) >>= λ x.
          run_rest store_stages_in_engine 4 (stage nonzero ∷ []) x.1 x.0)
        (some [])
try_run-append_example =
    try_run-append store_stages_in_engine 0 4 all_nodes (stage nonzero ∷ []) (atom 1) (some []) refl

abbrev fan_in_id : StageId
fan_in_id = record { key = codes "fan_in"; name = codes "fan_in" }

run_fan_in_branch-slots_example :
    (run_fan_in_branch store_stages_in_engine fan_in_id node (atom 30) none).0.0
    ≡ ok (results (case_slots store_stages_in_engine fan_in_id (atom 30) 0 node.cases))
run_fan_in_branch-slots_example =
    run_fan_in_branch-slots store_stages_in_engine fan_in_id (atom 30) node none

run_fan_in_branch-tally_example :
    (events : List Event) × ((run_fan_in_branch store_stages_in_engine fan_in_id node
        (atom 30)
        (some [])).1
      ≡ deliver (events ++ on_fan_in_completed fan_in_id 2 1 1 ∷ []) (some []))
unfolding opened
run_fan_in_branch-tally_example =
    run_fan_in_branch-tally store_stages_in_engine fan_in_id (atom 30) node (some [])

abbrev branch_id : StageId
branch_id = record { key = codes "branch"; name = codes "branch" }

run_stored_branch-eq_example :
    shown (run_stored_branch branch_id node (atom 0) (some []))
    ≡ run_selected_branch branch_id node (atom 0) (some [])
run_stored_branch-eq_example =
    run_stored_branch-eq branch_id node (atom 0) (some [])
      ((refl, refl), ((refl, refl), ((refl, refl), tt)))

try_run_range-eq-map_example :
    (try_run_range (engine all_nodes) (atom 1 ∷ atom 30 ∷ [])).0
    ≡ map (λ x. (try_run (engine all_nodes) x).0) (atom 1 ∷ atom 30 ∷ [])
try_run_range-eq-map_example = try_run_range-eq-map (engine all_nodes) (atom 1 ∷ atom 30 ∷ []) refl

abbrev zero_error : Error
zero_error = record {
  stage = record { key = codes "nonzero"; name = codes "nonzero" };
  category = expected_error;
  message = codes "zero";
}

try_run-Reported_example :
    Reported zero_error
      (try_run_after_result construct_stages_per_run 0
        (stage nonzero ∷ stage double ∷ [])
        (atom 0)
        (some [])).1
unfolding opened
try_run-Reported_example =
    try_run-Reported construct_stages_per_run 0 (stage nonzero ∷ stage double ∷ []) (atom 0)
      (some []) zero_error (refl, (refl, tt)) refl
