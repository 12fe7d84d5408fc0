-- ===== src/State/Refinement.antt =====
-- The engine of include/pb/runtime/state.hpp refines the abstract machine of its storage policy.
use pipeline_c.Prelude.{
  ℕ, suc, ◌<◌, ◌≡◌, ◌≢◌, refl, sym, ◌∙◌, ap, ap₂, subst, Option, none, some, List, [], ◌∷◌, ◌==◌,
  ==_iff, Bool-cases, inl, inr, All, arith,
}
use mathlib.Core.Path.{fun_ext}
use pipeline_c.State.{
  update, World, Called, returned, in_context, Storage, owned, reset_per_run, thread_local_owned,
  shared, find_slot, seed_value, activate_slot, active, reset_before_run, StatefulEngine,
  stateful_try_run,
}
use pipeline_c.State.Scopes.{update-same}
use pipeline_c.State.Scoped.{update-other, update-eq, in_context-Computed, Refines}
use pipeline_c.State.Spec.{
  compute_call, policy_of, first_state, slot_state, states_of, IsValid, run_calls, answers,
}
use pipeline_c.State.Slots.{find_slot-All, find_slot-Distinct, find_slot-here, find_slot-apart}

module _ {E T I R : Type 0} (initial : T) (compute : T → I → R × T) (thread : ℕ) (e : E)
    (input : I) where
  abbrev ran : Storage T → World T → (Called R × StatefulEngine E T) × World T
  ran storage world =
      stateful_try_run initial (compute_call compute) thread
        (record { engine = e; storage = storage }) input world

  owned-Refines :
      (p : ℕ) (world : World T)
      → Refines initial compute thread input (owned p) world (ran (owned p) world)
  unfolding stateful_try_run reset_before_run active
  owned-Refines p world =
      let c = in_context-Computed compute e input thread p world in
      record {
        answer = c.answer;
        states = fun_ext (λ t. ap (λ h. h p) c.heap ∙ update-same world.heap p _);
        policy = refl;
        valid = tt;
      }

  shared-Refines :
      (p : ℕ) (world : World T)
      → Refines initial compute thread input (shared p) world (ran (shared p) world)
  unfolding stateful_try_run reset_before_run active
  shared-Refines p world =
      let c = in_context-Computed compute e input thread p world in
      record {
        answer = c.answer;
        states = fun_ext (λ t. ap (λ h. h p) c.heap ∙ update-same world.heap p _);
        policy = refl;
        valid = tt;
      }

  reset-Refines :
      (p : ℕ) (world : World T)
      → Refines initial compute thread input (reset_per_run p) world (ran (reset_per_run p) world)
  unfolding stateful_try_run reset_before_run active
  reset-Refines p world =
      let c =
        in_context-Computed compute e input thread p
          (record world { heap = update world.heap p initial }) in
      record {
        answer =
            c.answer ∙ ap (λ s. returned (compute s input).0) (update-same world.heap p initial);
        states = refl;
        policy = refl;
        valid = tt;
      }

All-map :
    {B : Type 0} (P Q : B → Type 0) (xs : List B) → ((b : B) → P b → Q b) → All P xs → All Q xs
All-map P Q [] f h = tt
All-map P Q (x ∷ xs) f (h, hs) = (f x h, All-map P Q xs f hs)

slot_state_kept :
    {T : Type 0} (initial : T) (seed : Option T) (world world' : World T) (found : Option ℕ)
    → ((q : ℕ) → found ≡ some q → world'.heap q ≡ world.heap q)
    → slot_state initial seed world' found ≡ slot_state initial seed world found
slot_state_kept initial seed world world' none h = refl
slot_state_kept initial seed world world' (some q) h = h q refl

seed_value-first_state :
    {T : Type 0} (initial : T) (seed : Option T)
    → seed_value initial seed ≡ first_state initial seed
unfolding seed_value
seed_value-first_state initial none = refl
seed_value-first_state initial (some value) = refl

module _ {E T I R : Type 0} (initial : T) (compute : T → I → R × T) (thread : ℕ) (e : E) (input : I)
    (seed : Option T) (slots : List (ℕ × ℕ)) (world : World T) where
  -- A run once the table is searched.
  abbrev ran_from : Option ℕ → (Called R × StatefulEngine E T) × World T
  ran_from found =
      let (p, storage, world') = activate_slot initial thread seed slots found world in
      let (called, world'') = in_context thread p (compute_call compute e input thread) world' in
      ((called.0, record { engine = called.1; storage = storage }), world'')

  found-Refines :
      (found : Option ℕ)
      → find_slot thread slots ≡ found
      → IsValid initial (thread_local_owned seed slots) world
      → Refines initial compute thread input (thread_local_owned seed slots) world (ran_from found)
  unfolding activate_slot
  found-Refines (some p) at (old, distinct) =
      let run = in_context thread p (compute_call compute e input thread) world in
      let c = in_context-Computed compute e input thread p world in
      let state = ap (slot_state initial seed world) at in
      record {
        answer = c.answer ∙ ap (λ s. returned (compute s input).0) (sym state);
        states = fun_ext (λ t. elim (Bool-cases (t == thread)) [
          | inl same ↦
              ap (λ u. slot_state initial seed run.1 (find_slot u slots)) ((==_iff t thread).0 same)
              ∙ ap (slot_state initial seed run.1) at
              ∙ ap (λ h. h p) c.heap
              ∙ update-same world.heap p _
              ∙ ap (λ s. (compute s input).1) (sym state)
              ∙ sym (
                  update-eq (states_of initial (thread_local_owned seed slots) world) thread t _
                    same)
          | inr other ↦
              slot_state_kept initial seed world run.1 (find_slot t slots) (λ q at_t.
                ap (λ h. h q) c.heap
                ∙ update-other world.heap p q _ (
                    find_slot-Distinct thread t p q slots distinct (ground (arith, ==_iff t thread))
                      at at_t))
              ∙ sym (rw other refl)
        ]);
        policy = refl;
        valid = (subst (λ (n : ℕ). All (λ (x : ℕ × ℕ). x.1 < n) slots) (sym c.fresh) old, distinct);
      }
  found-Refines none at (old, distinct) =
      let world' : World T = record world {
        heap = update world.heap world.fresh (seed_value initial seed);
        fresh = suc world.fresh;
      } in
      let run = in_context thread world.fresh (compute_call compute e input thread) world' in
      let c = in_context-Computed compute e input thread world.fresh world' in
      let state = ap (slot_state initial seed world) at in
      let seeded =
        update-same world.heap world.fresh (seed_value initial seed)
        ∙ seed_value-first_state initial seed in
      record {
        answer = c.answer ∙ ap (λ s. returned (compute s input).0) (seeded ∙ sym state);
        states = fun_ext (λ t. elim (Bool-cases (t == thread)) [
          | inl same ↦
              ap (slot_state initial seed run.1) (
                find_slot-here t thread world.fresh slots
                  (ground (arith, ==_iff t thread, ==_iff thread t)))
              ∙ ap (λ h. h world.fresh) c.heap
              ∙ update-same world'.heap world.fresh _
              ∙ ap (λ s. (compute s input).1) (seeded ∙ sym state)
              ∙ sym (
                  update-eq (states_of initial (thread_local_owned seed slots) world) thread t _
                    same)
          | inr other ↦
              ap (slot_state initial seed run.1) (
                find_slot-apart t thread world.fresh slots
                  (ground (arith, ==_iff t thread, ==_iff thread t)))
              ∙ slot_state_kept initial seed world run.1 (find_slot t slots) (λ q at_t.
                let older = find_slot-All (λ a. a < world.fresh) t q slots old at_t in
                let apart : q ≢ world.fresh = λ same. omega arith in
                ap (λ h. h q) c.heap
                ∙ update-other world'.heap world.fresh q _ apart
                ∙ update-other world.heap world.fresh q _ apart)
              ∙ sym (rw other refl)
        ]);
        policy = refl;
        valid = (
          (
            subst (λ (n : ℕ). world.fresh < n) (sym c.fresh) (omega arith),
            All-map _ _ slots
                (λ (x : ℕ × ℕ) (h : x.1 < world.fresh).
                  subst (λ (n : ℕ). x.1 < n) (sym c.fresh) (omega arith))
                old,
          ),
          (All-map _ _ slots (λ (x : ℕ × ℕ) (h : x.1 < world.fresh). ground arith) old, distinct),
        );
      }

module _ {E T I R : Type 0} (initial : T) (compute : T → I → R × T) where
  pub try_run-Refines :
      (thread : ℕ) (e : E) (input : I) (storage : Storage T) (world : World T)
      → IsValid initial storage world
      → Refines initial compute thread input storage world
          (ran initial compute thread e input storage world)
  unfolding stateful_try_run reset_before_run active
  try_run-Refines thread e input (owned p) world valid =
      owned-Refines initial compute thread e input p world
  try_run-Refines thread e input (reset_per_run p) world valid =
      reset-Refines initial compute thread e input p world
  try_run-Refines thread e input (thread_local_owned seed slots) world valid =
      found-Refines initial compute thread e input seed slots world (find_slot thread slots) refl
        valid
  try_run-Refines thread e input (shared p) world valid =
      shared-Refines initial compute thread e input p world

  -- The calls of `try_run` on an engine with a state, made one after the other on any threads, give
  -- the results of the abstract machine of its storage's policy: one state for all runs, a new state
  -- for each run, or one state for each thread. The storage and the world have to be in order, as
  -- they are when the engine is made, and the engine inside has to compute with the current state.
  pub run_calls-eq-answers :
      (x : StatefulEngine E T) (calls : List (ℕ × I)) (world : World T)
      → IsValid initial x.storage world
      → run_calls initial compute x calls world
        ≡ answers compute (policy_of x.storage) (states_of initial x.storage world) calls
  run_calls-eq-answers x [] world valid = refl
  run_calls-eq-answers x ((thread, input) ∷ calls) world valid =
      let run = stateful_try_run initial (compute_call compute) thread x input world in
      let refines = try_run-Refines thread x.engine input x.storage world valid in
      ap₂ (λ r rs. r ∷ rs) refines.answer
        (run_calls-eq-answers run.0.1 calls run.1 refines.valid
          ∙ ap₂ (λ policy states. answers compute policy states calls) refines.policy
              refines.states)
