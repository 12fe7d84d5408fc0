-- ===== src/State/Spec.antt =====
-- What an engine with a state promises (include/pb/runtime/state.hpp): each storage policy is a way
-- to hand states from one run to the next.
use pipeline_c.Prelude.{ℕ, ◌<◌, ◌≢◌, Option, none, some, List, [], ◌∷◌, All}
use pipeline_c.State.{
  update, World, Called, returned, threw, current_state, Storage, owned, reset_per_run,
  thread_local_owned, shared, find_slot, StatefulEngine, stateful_try_run,
}

-- An engine whose stages compute with the current state: it reads the state, and writes it back.
module _ {E T I R : Type 0} (compute : T → I → R × T) where
  unfoldable pub with_state_at : E → I → Called ℕ → World T → (Called R × E) × World T
  with_state_at e input (threw x) world = ((threw x, e), world)
  with_state_at e input (returned p) world =
      let (r, value) = compute (world.heap p) input in
      ((returned r, e), record world { heap = update world.heap p value })

  unfoldable pub compute_call : E → I → (thread : ℕ) → World T → (Called R × E) × World T
  unfolding with_state_at
  compute_call e input thread world = with_state_at e input (current_state thread world) world

-- The policies, as abstract machines over one state for each thread.
pub data StatePolicy : Type 0 where
  one_state new_state state_per_thread : StatePolicy

abbrev pub policy_of : {T : Type 0} → Storage T → StatePolicy
policy_of (owned p) = one_state
policy_of (reset_per_run p) = new_state
policy_of (thread_local_owned seed slots) = state_per_thread
policy_of (shared p) = one_state

-- The states behind a run on a thread that left this state.
abbrev pub after_run : {T : Type 0} → StatePolicy → (thread : ℕ) → T → (ℕ → T) → ℕ → T
after_run one_state thread value states = λ t. value
after_run new_state thread value states = states
after_run state_per_thread thread value states = update states thread value

-- No slot, or no two slots, have this address.
abbrev pub Absent : ℕ → List (ℕ × ℕ) → Type 0
Absent p slots = All (λ (e : ℕ × ℕ). e.1 ≢ p) slots

abbrev pub Distinct : List (ℕ × ℕ) → Type 0
Distinct [] = Unit
Distinct (e ∷ slots) = Absent e.1 slots × Distinct slots

-- The state that a thread starts with: the seed if there is one.
abbrev pub first_state : {T : Type 0} → T → Option T → T
first_state initial none = initial
first_state initial (some seed) = seed

module _ {T : Type 0} (initial : T) where
  abbrev pub slot_state : Option T → World T → Option ℕ → T
  slot_state seed world none = first_state initial seed
  slot_state seed world (some p) = world.heap p

  -- The state that the next run on a thread starts with.
  abbrev pub states_of : Storage T → World T → ℕ → T
  states_of (owned p) world t = world.heap p
  states_of (reset_per_run p) world t = initial
  states_of (thread_local_owned seed slots) world t = slot_state seed world (find_slot t slots)
  states_of (shared p) world t = world.heap p

  -- The states of different threads are different objects, older than the next new one.
  abbrev pub IsValid : Storage T → World T → Type 0
  IsValid (owned p) world = Unit
  IsValid (reset_per_run p) world = Unit
  IsValid (thread_local_owned seed slots) world =
      All (λ (e : ℕ × ℕ). e.1 < world.fresh) slots × Distinct slots
  IsValid (shared p) world = Unit

-- Calls of `try_run`, one after the other, on any threads: their results.
abbrev pub run_calls :
    {E T I R : Type 0} (initial : T) (compute : T → I → R × T)
    → StatefulEngine E T
    → List (ℕ × I)
    → World T
    → List (Called R)
run_calls initial compute x [] world = []
run_calls initial compute x ((thread, input) ∷ calls) world =
    let ((r, x'), world') = stateful_try_run initial (compute_call compute) thread x input world in
    r ∷ run_calls initial compute x' calls world'

-- The results of the abstract machine.
abbrev pub answers :
    {T I R : Type 0} (compute : T → I → R × T)
    → StatePolicy
    → (ℕ → T)
    → List (ℕ × I)
    → List (Called R)
answers compute policy states [] = []
answers compute policy states ((thread, input) ∷ calls) =
    let (r, value) = compute (states thread) input in
    returned r ∷ answers compute policy (after_run policy thread value states) calls
