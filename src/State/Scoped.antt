-- ===== src/State/Scoped.antt =====
-- What a scope of include/pb/runtime/state.hpp leaves around a computation with the state, and what
-- a run has to leave for the storage to be the abstract machine of its policy.
use pipeline_c.Prelude.{
  ℕ, ◌≡◌, ◌≢◌, refl, sym, ap, subst, true, ◌∷◌, ◌==◌, ==_iff, Bool-cases, inl, inr,
}
use pipeline_c.State.{
  update, World, Called, returned, top, push, pop, back, or_throw, current_state, in_context,
  Storage, StatefulEngine,
}
use pipeline_c.State.Scopes.{update-same}
use pipeline_c.State.Spec.{with_state_at, compute_call, policy_of, after_run, states_of, IsValid}

pub update-eq : {B : Type 0} (f : ℕ → B) (k j : ℕ) (v : B) → (j == k) ≡ true → update f k v j ≡ v
update-eq f k j v same = rw same refl

pub update-other : {B : Type 0} (f : ℕ → B) (k j : ℕ) (v : B) → j ≢ k → update f k v j ≡ f j
update-other f k j v apart = elim (Bool-cases (j == k)) [
  | inl same ↦ absurd (apart ((==_iff j k).0 same))
  | inr other ↦ rw other refl
]

-- In a scope the current state is the one that was pushed.
pub current_state-push :
    {T : Type 0} (thread p : ℕ) (world : World T)
    → current_state thread (push thread p world) ≡ returned p
unfolding current_state top push or_throw
current_state-push thread p world =
    ap (λ stack. or_throw (back stack)) (update-same world.stacks thread (p ∷ world.stacks thread))

module _ {E T I R : Type 0} (compute : T → I → R × T) (e : E) (input : I) where
  -- What a scope leaves around a computation with a state.
  pub record Computed (p : ℕ) (world : World T) (run : (Called R × E) × World T) : Type 0 where
    pub answer : run.0.0 ≡ returned (compute (world.heap p) input).0
    pub heap : run.1.heap ≡ update world.heap p (compute (world.heap p) input).1
    pub fresh : run.1.fresh ≡ world.fresh

  pub in_context-Computed :
      (thread p : ℕ) (world : World T)
      → Computed p world (in_context thread p (compute_call compute e input thread) world)
  unfolding in_context compute_call pop push with_state_at
  in_context-Computed thread p world =
      subst
        (λ c. Computed p world (
          let (b, world') = with_state_at compute e input c (push thread p world) in
          (b, pop thread p world')))
        (sym (current_state-push thread p world))
        (record { answer = refl; heap = refl; fresh = refl })

-- What a run on a thread has to leave: the answer of the abstract machine, its states, and a storage
-- that is in order.
pub record Refines {E T I R : Type 0} (initial : T) (compute : T → I → R × T) (thread : ℕ)
    (input : I) (storage : Storage T) (world : World T)
    (run : (Called R × StatefulEngine E T) × World T) : Type 0 where
  pub answer : run.0.0 ≡ returned (compute (states_of initial storage world thread) input).0
  pub states :
      states_of initial run.0.1.storage run.1
      ≡ after_run
          (policy_of storage)
          thread
          (compute (states_of initial storage world thread) input).1
          (states_of initial storage world)
  pub policy : policy_of run.0.1.storage ≡ policy_of storage
  pub valid : IsValid initial run.0.1.storage run.1
