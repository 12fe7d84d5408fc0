-- ===== src/State/Tests.antt =====
-- Runs of the state DSL of include/pb/runtime/state.hpp on concrete values.
use pipeline_c.Prelude.{ℕ, ◌+◌, ◌≡◌, refl, none, some, [], ◌∷◌}
use pipeline_c.ErrorPolicy.{pipeline_exception}
use pipeline_c.State.{
  World, Called, returned, threw, push, pop, current_state, try_current_state, or_throw, top,
  no_state_error, owned, thread_local_owned, StatefulEngine, stateful_try_run_range, popped,
  erase_last,
}
use pipeline_c.State.Access.{set_state, value_address}
use pipeline_c.State.Scopes.{stateful_try_run_range-stacks}
use pipeline_c.State.Spec.{compute_call, with_state_at, answers, state_per_thread}
use pipeline_c.State.Factory.{FactoryAnswers, run_calls-FactoryAnswers}

-- A stage that adds its input to the state, and returns the sum.
abbrev add_up : ℕ → ℕ → ℕ × ℕ
add_up state input = (state + input, state + input)

abbrev idle : World ℕ
idle = record { stacks = λ thread. []; heap = λ address. 0; fresh = 1 }

abbrev one_for_all : StatefulEngine Unit ℕ
one_for_all = record { engine = tt; storage = owned 0 }

with_state_at-stacks :
    (e : Unit) (input : ℕ) (called : Called ℕ) (world : World ℕ)
    → (with_state_at add_up e input called world).1.stacks ≡ world.stacks
unfolding with_state_at
with_state_at-stacks e input (threw x) world = refl
with_state_at-stacks e input (returned p) world = refl

compute_call-stacks :
    (e : Unit) (input thread : ℕ) (world : World ℕ)
    → (compute_call add_up e input thread world).1.stacks ≡ world.stacks
unfolding compute_call
compute_call-stacks e input thread world =
    with_state_at-stacks e input (current_state thread world) world

current_state_outside : current_state 0 idle ≡ threw (pipeline_exception no_state_error)
unfolding current_state or_throw top
current_state_outside = refl

-- A scope that is left before the one inside it.
pop_out_of_order : try_current_state 3 (pop 3 5 (push 3 6 (push 3 5 idle))) ≡ some 6
unfolding try_current_state push pop popped top erase_last
pop_out_of_order = refl

state_of_another_thread : try_current_state 4 (push 3 5 idle) ≡ none
unfolding try_current_state push top
state_of_another_thread = refl

set_state_per_thread : set_state (thread_local_owned (some 10) []) 3 idle ≡ none
unfolding set_state value_address
set_state_per_thread = refl

stateful_try_run_range-stacks_example :
    (stateful_try_run_range 0
      (compute_call add_up)
      2
      one_for_all
      (5 ∷ 7 ∷ [])
      (push 2 9 idle)).1.stacks
    ≡ (push 2 9 idle).stacks
stateful_try_run_range-stacks_example =
    stateful_try_run_range-stacks 0 (compute_call add_up) compute_call-stacks 2 one_for_all
      (5 ∷ 7 ∷ []) (push 2 9 idle)

run_calls-FactoryAnswers_example :
    FactoryAnswers 0 add_up tt ((1, 5) ∷ (2, 7) ∷ (1, 1) ∷ []) idle 3 0 (some 10)
run_calls-FactoryAnswers_example =
    run_calls-FactoryAnswers 0 add_up tt ((1, 5) ∷ (2, 7) ∷ (1, 1) ∷ []) idle 3 0 (some 10)

answers_of_the_policy :
    answers add_up state_per_thread (λ thread. 10) ((1, 5) ∷ (2, 7) ∷ (1, 1) ∷ [])
    ≡ returned 15 ∷ returned 17 ∷ returned 16 ∷ []
answers_of_the_policy = refl
