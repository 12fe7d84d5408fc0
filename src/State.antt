-- ===== src/State.antt =====
-- The state DSL of include/pb/runtime/state.hpp, for one state type: the stack of states that each
-- thread has, the scopes that push and pop it, the storage of an engine's state and the engine that
-- puts its state in scope for each run. Objects have addresses; the engine inside is a parameter.
pub mod Scopes
pub mod Spec
pub mod Slots
pub mod Scoped
pub mod Refinement
pub mod Factory
mod Tests
pub mod Access
use pipeline_c.Prelude.{
  ℕ, suc, ◌+◌, Bool, true, false, Option, none, some, List, [], ◌∷◌, ◌++◌, ◌==◌, if◌then◌else◌,
  codes, Text,
}
use pipeline_c.Error.{contract_violation, no_stage, Error}
use pipeline_c.ErrorPolicy.{dash, PipelineException, pipeline_exception}

abbrev pub update : {B : Type 0} → (ℕ → B) → ℕ → B → ℕ → B
update f k b j = if j == k then b else f j

-- What the threads share: each thread's `state_stack::storage()`, its back first, the states at
-- their addresses, and the next address that a new object gets.
pub record World (T : Type 0) : Type 0 where
  pub stacks : ℕ → List ℕ
  pub heap : ℕ → T
  pub fresh : ℕ

-- A call returns, or throws a `pipeline_exception`.
pub data Called (R : Type 0) : Type 0 where
  returned : R → Called R
  threw : PipelineException → Called R

-- `s.erase` of the last element that is this address
unfoldable pub erase_last : ℕ → List ℕ → List ℕ
erase_last p [] = []
erase_last p (q ∷ stack) = let rest = erase_last p stack in if q == p then stack else q ∷ rest

abbrev pub back : List ℕ → Option ℕ
back [] = none
back (p ∷ stack) = some p

unfoldable pub popped : ℕ → List ℕ → List ℕ
popped p [] = []
popped p (q ∷ stack) = if q == p then stack else erase_last p (q ∷ stack)

module _ {T : Type 0} where
  unfoldable pub top : ℕ → World T → Option ℕ
  top thread world = back (world.stacks thread)

  unfoldable pub push : ℕ → ℕ → World T → World T
  push thread p world = record world {
    stacks = update world.stacks thread (p ∷ world.stacks thread);
  }

  -- `state_stack::pop`
  unfoldable pub pop : ℕ → ℕ → World T → World T
  pop thread p world = record world {
    stacks = update world.stacks thread (popped p (world.stacks thread));
  }

unfoldable pub no_state_error : Error
no_state_error = record {
  stage = no_stage;
  category = contract_violation;
  message =
      codes "pb::current_state<T>() called outside a pb::with_state<T>(...) scope"
      ++ (dash
          ++ codes
              "wrap the engine with pb::with_state<T>(engine) before invoking it, or use pb::try_current_state<T>() if state is optional");
}

-- A reference to what a pointer points at; a null pointer is an error.
unfoldable pub or_throw : Option ℕ → Called ℕ
or_throw none = threw (pipeline_exception no_state_error)
or_throw (some p) = returned p

module _ {T : Type 0} where
  unfoldable pub current_state : ℕ → World T → Called ℕ
  current_state thread world = or_throw (top thread world)

  unfoldable pub try_current_state : ℕ → World T → Option ℕ
  try_current_state thread world = top thread world

  -- A `state_context` around a body: its destructor pops however the body ends.
  unfoldable pub in_context :
      {B : Type 0} → (thread p : ℕ) → (World T → B × World T) → World T → B × World T
  in_context thread p body world =
      let (b, world') = body (push thread p world) in (b, pop thread p world')

-- `stateful_storage` of the policies that own or share a state. An engine of the policy `borrowed`
-- has none, and only the calls with a caller's state.
pub data Storage (T : Type 0) : Type 0 where
  owned : (value : ℕ) → Storage T
  reset_per_run : (value : ℕ) → Storage T
  thread_local_owned : (seed : Option T) (slots : List (ℕ × ℕ)) → Storage T
  shared : (value : ℕ) → Storage T

unfoldable pub find_slot : ℕ → List (ℕ × ℕ) → Option ℕ
find_slot thread [] = none
find_slot thread ((t, p) ∷ slots) = if t == thread then some p else find_slot thread slots

-- `initial` is `State{}`.
module _ {T : Type 0} (initial : T) where
  unfoldable pub seed_value : Option T → T
  seed_value none = initial
  seed_value (some value) = value

  -- `active` of a table of threads, from what it finds
  unfoldable pub activate_slot :
      (thread : ℕ) → Option T → List (ℕ × ℕ) → Option ℕ → World T → ℕ × Storage T × World T
  activate_slot thread seed slots (some p) world = (p, thread_local_owned seed slots, world)
  activate_slot thread seed slots none world = (
    world.fresh,
    thread_local_owned seed ((thread, world.fresh) ∷ slots),
    record world {
      heap = update world.heap world.fresh (seed_value seed);
      fresh = suc world.fresh;
    },
  )

  unfoldable pub active : (thread : ℕ) → Storage T → World T → ℕ × Storage T × World T
  active thread (owned p) world = (p, owned p, world)
  active thread (reset_per_run p) world = (p, reset_per_run p, world)
  active thread (thread_local_owned seed slots) world =
      activate_slot thread seed slots (find_slot thread slots) world
  active thread (shared p) world = (p, shared p, world)

  -- `reset_before_run`, which only one policy has
  unfoldable pub reset_before_run : Storage T → World T → World T
  reset_before_run (owned p) world = world
  reset_before_run (reset_per_run p) world = record world { heap = update world.heap p initial }
  reset_before_run (thread_local_owned seed slots) world = world
  reset_before_run (shared p) world = world

-- `stateful_engine`, around an engine of type `E`
pub record StatefulEngine (E T : Type 0) : Type 0 where
  pub engine : E
  pub storage : Storage T

-- `call` is a call of the engine inside, `run` or `try_run`, on a thread.
module _ {E T I R : Type 0} (initial : T)
    (call : E → I → (thread : ℕ) → World T → (Called R × E) × World T) where
  -- `run` and `try_run`
  unfoldable pub stateful_try_run :
      (thread : ℕ) → StatefulEngine E T → I → World T → (Called R × StatefulEngine E T) × World T
  stateful_try_run thread stateful input world =
      let (p, storage, world') =
        active initial thread stateful.storage (reset_before_run initial stateful.storage world) in
      let (called, world'') = in_context thread p (call stateful.engine input thread) world' in
      ((called.0, record { engine = called.1; storage = storage }), world'')

module _ {E T I R : Type 0} (call : E → I → (thread : ℕ) → World T → (Called R × E) × World T) where
  -- `run_with_state` and `try_run_with_state`, with the address of the caller's state
  unfoldable pub try_run_with_state :
      (thread : ℕ)
      → StatefulEngine E T
      → I
      → (state : ℕ) → World T
      → (Called R × StatefulEngine E T) × World T
  try_run_with_state thread stateful input p world =
      let (called, world') = in_context thread p (call stateful.engine input thread) world in
      ((called.0, record stateful { engine = called.1 }), world')

unfoldable pub keep_result : {R : Type 0} → R → Called (List R) → Called (List R)
keep_result r (threw e) = threw e
keep_result r (returned rs) = returned (r ∷ rs)

module _ {X R W : Type 0} where
  -- An exception leaves the loop.
  unfoldable pub continue_range :
      (next : X → W → (Called (List R) × X) × W) → (Called R × X) × W → (Called (List R) × X) × W
  continue_range next ((threw e, x), world) = ((threw e, x), world)
  continue_range next ((returned r, x), world) =
      let ((rs, last), world') = next x world in ((keep_result r rs, last), world')

module _ {X I R W : Type 0} where
  -- Calls one after the other: the loops of `try_run_range`, `try_run_each` and their variants with a
  -- caller's state.
  unfoldable pub range_from :
      (once : X → I → W → (Called R × X) × W) → X → List I → W → (Called (List R) × X) × W
  range_from once x [] world = ((returned [], x), world)
  range_from once x (input ∷ inputs) world =
      continue_range (λ x' world'. range_from once x' inputs world') (once x input world)

module _ {E T I R : Type 0} (initial : T)
    (call : E → I → (thread : ℕ) → World T → (Called R × E) × World T) where
  unfoldable pub stateful_try_run_range :
      (thread : ℕ)
      → StatefulEngine E T
      → List I
      → World T
      → (Called (List R) × StatefulEngine E T) × World T
  stateful_try_run_range thread = range_from (stateful_try_run initial call thread)

module _ {E T I R : Type 0} (call : E → I → (thread : ℕ) → World T → (Called R × E) × World T) where
  unfoldable pub try_run_range_with_state :
      (thread : ℕ)
      → StatefulEngine E T
      → List I
      → (state : ℕ) → World T
      → (Called (List R) × StatefulEngine E T) × World T
  try_run_range_with_state thread stateful inputs p =
      range_from (λ x input. try_run_with_state call thread x input p) stateful inputs
