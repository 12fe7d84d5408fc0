-- ===== src/State/Access.antt =====
-- The access to the state that an engine owns or shares (include/pb/runtime/state.hpp).
use pipeline_c.Prelude.{ℕ, Option, none, some}
use pipeline_c.State.{update, World, Storage, owned, reset_per_run, thread_local_owned, shared}

module _ {T : Type 0} where
  -- The address of the one state that a storage has, for `state`, `set_state` and `reset_state`.
  unfoldable pub value_address : Storage T → Option ℕ
  value_address (owned p) = some p
  value_address (reset_per_run p) = some p
  value_address (thread_local_owned seed slots) = none
  value_address (shared p) = none

  -- `set_state`; none where the storage has no state of its own
  unfoldable pub set_state : Storage T → T → World T → Option (World T)
  set_state storage value world = elim (value_address storage) [
    | none ↦ none
    | some p ↦ some (record world { heap = update world.heap p value })
  ]

  unfoldable pub reset_state : (initial : T) → Storage T → World T → Option (World T)
  reset_state initial storage world = set_state storage initial world

  -- `set_shared_state`
  unfoldable pub set_shared_state : Storage T → ℕ → Option (Storage T)
  set_shared_state (owned p) q = none
  set_shared_state (reset_per_run p) q = none
  set_shared_state (thread_local_owned seed slots) q = none
  set_shared_state (shared p) q = some (shared q)
