-- ===== src/State/Factory.antt =====
-- The factories of include/pb/runtime/state.hpp, and what the engines that they make promise.
use pipeline_c.Prelude.{ℕ, suc, ◌≡◌, ◌∙◌, ap, Option, List, []}
use pipeline_c.State.{
  update, World, Storage, owned, reset_per_run, thread_local_owned, shared, StatefulEngine,
  find_slot,
}
use pipeline_c.State.Scopes.{update-same}
use pipeline_c.State.Spec.{one_state, new_state, state_per_thread, first_state, run_calls, answers}
use pipeline_c.State.Refinement.{run_calls-eq-answers}

module _ {E T : Type 0} where
  -- A new object with this value, and a storage with its address.
  unfoldable pub with_value : (ℕ → Storage T) → E → T → World T → StatefulEngine E T × World T
  with_value storage_of e init world = (
    record { engine = e; storage = storage_of world.fresh },
    record world { heap = update world.heap world.fresh init; fresh = suc world.fresh },
  )

  -- `with_state`, with the value of `State{}` or the caller's
  unfoldable pub with_state : E → T → World T → StatefulEngine E T × World T
  with_state = with_value owned

  unfoldable pub with_reset_per_run_state : E → T → World T → StatefulEngine E T × World T
  with_reset_per_run_state = with_value reset_per_run

  unfoldable pub with_shared_state : E → (state : ℕ) → StatefulEngine E T
  with_shared_state e p = record { engine = e; storage = shared p }

  unfoldable pub with_thread_local_state : E → Option T → StatefulEngine E T
  with_thread_local_state e seed = record { engine = e; storage = thread_local_owned seed [] }

module _ {E T I R : Type 0} (initial : T) (compute : T → I → R × T) (e : E) (calls : List (ℕ × I))
    (world : World T) where
  -- What the engine of each factory answers.
  abbrev pub FactoryAnswers : T → ℕ → Option T → Type 0
  FactoryAnswers init p seed =
      (let (x, world') = with_state e init world in
        run_calls initial compute x calls world' ≡ answers compute one_state (λ t. init) calls)
      × (let (x, world') = with_reset_per_run_state e init world in
          run_calls initial compute x calls world' ≡ answers compute new_state (λ t. initial) calls)
      × (run_calls initial compute (with_shared_state e p) calls world
          ≡ answers compute one_state (λ t. world.heap p) calls)
      × (run_calls initial compute (with_thread_local_state e seed) calls world
          ≡ answers compute state_per_thread (λ t. first_state initial seed) calls)

  -- Let the stages of an engine compute with the current state: they read it and write it back. When
  -- calls of `try_run` are made one after the other, each on some thread, on the engine that a factory
  -- makes of it, the results are those of an abstract machine: the engine of `with_state` starts with the caller's
  -- state and hands the state of each run to the next one, that of `with_reset_per_run_state` starts
  -- each run with a new state, that of `with_shared_state` starts with the shared state as it is, and
  -- that of `with_thread_local_state` starts each thread with the seed, or without one with a new state, and hands on
  -- a state within the thread only.
  pub run_calls-FactoryAnswers : (init : T) (p : ℕ) (seed : Option T) → FactoryAnswers init p seed
  unfolding with_state with_reset_per_run_state with_shared_state with_thread_local_state with_value
      find_slot
  run_calls-FactoryAnswers init p seed = (
    run_calls-eq-answers initial compute (with_state e init world).0 calls
          (with_state e init world).1 tt
        ∙ ap (λ v. answers compute one_state (λ t. v) calls)
            (update-same world.heap world.fresh init),
    run_calls-eq-answers initial compute (with_reset_per_run_state e init world).0 calls
        (with_reset_per_run_state e init world).1 tt,
    run_calls-eq-answers initial compute (with_shared_state e p) calls world tt,
    run_calls-eq-answers initial compute (with_thread_local_state e seed) calls world (tt, tt),
  )
