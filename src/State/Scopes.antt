-- ===== src/State/Scopes.antt =====
-- The stacks of include/pb/runtime/state.hpp: every run leaves them as it found them.
use pipeline_c.Prelude.{
  ℕ, ◌≡◌, refl, sym, ◌∙◌, ap, Option, none, some, List, [], ◌∷◌, ◌==◌, arith, ==_iff, Bool-cases,
  inl, inr, subst,
}
use mathlib.Core.Path.{fun_ext}
use pipeline_c.State.{
  update, World, Called, returned, threw, push, pop, popped, in_context, Storage, owned,
  reset_per_run, thread_local_owned, shared, find_slot, activate_slot, active, reset_before_run,
  StatefulEngine, stateful_try_run, continue_range, range_from, stateful_try_run_range,
}

pub update-same : {B : Type 0} (f : ℕ → B) (k : ℕ) (v : B) → update f k v k ≡ v
update-same f k v = ground arith

update_back : {B : Type 0} (f : ℕ → B) (k : ℕ) (v w : B) → w ≡ f k → update (update f k v) k w ≡ f
update_back f k v w e = fun_ext (λ j. elim (Bool-cases (j == k)) [
  | inl same ↦ rw same (e ∙ ap f (sym ((==_iff j k).0 same)))
  | inr other ↦ rw other refl
])

pub popped-cons : (p : ℕ) (stack : List ℕ) → popped p (p ∷ stack) ≡ stack
unfolding popped
popped-cons p stack = ground arith

module _ {B T : Type 0} (thread p : ℕ) (body : World T → B × World T) where
  -- A scope leaves the stacks as they were, if its body does.
  pub in_context-stacks :
      (world : World T)
      → ((w : World T) → (body w).1.stacks ≡ w.stacks)
      → (in_context thread p body world).1.stacks ≡ world.stacks
  unfolding in_context push pop
  in_context-stacks world h =
      subst (λ stacks. update stacks thread (popped p (stacks thread)) ≡ world.stacks)
        (sym (h (push thread p world)))
        (update_back world.stacks thread (p ∷ world.stacks thread) _ (
          ap (popped p) (update-same world.stacks thread (p ∷ world.stacks thread))
          ∙ popped-cons p (world.stacks thread)))

module _ {T : Type 0} (initial : T) where
  reset_before_run-stacks :
      (storage : Storage T) (world : World T)
      → (reset_before_run initial storage world).stacks ≡ world.stacks
  unfolding reset_before_run
  reset_before_run-stacks (owned p) world = refl
  reset_before_run-stacks (reset_per_run p) world = refl
  reset_before_run-stacks (thread_local_owned seed slots) world = refl
  reset_before_run-stacks (shared p) world = refl

  activate_slot-stacks :
      (thread : ℕ) (seed : Option T) (slots : List (ℕ × ℕ)) (found : Option ℕ) (world : World T)
      → (activate_slot initial thread seed slots found world).2.stacks ≡ world.stacks
  unfolding activate_slot
  activate_slot-stacks thread seed slots none world = refl
  activate_slot-stacks thread seed slots (some p) world = refl

  active-stacks :
      (thread : ℕ) (storage : Storage T) (world : World T)
      → (active initial thread storage world).2.stacks ≡ world.stacks
  unfolding active
  active-stacks thread (owned p) world = refl
  active-stacks thread (reset_per_run p) world = refl
  active-stacks thread (thread_local_owned seed slots) world =
      activate_slot-stacks thread seed slots (find_slot thread slots) world
  active-stacks thread (shared p) world = refl

continue_range-stacks :
    {X R T : Type 0} (next : X → World T → (Called (List R) × X) × World T)
    (one : (Called R × X) × World T)
    → ((x : X) (world : World T) → (next x world).1.stacks ≡ world.stacks)
    → (continue_range next one).1.stacks ≡ one.1.stacks
unfolding continue_range
continue_range-stacks next ((threw e, x), world) h = refl
continue_range-stacks next ((returned r, x), world) h = h x world

module _ {X I R T : Type 0} (once : X → I → World T → (Called R × X) × World T)
    (restores : (x : X) (input : I) (world : World T)
      → (once x input world).1.stacks ≡ world.stacks) where
  range_from-stacks :
      (x : X) (inputs : List I) (world : World T)
      → (range_from once x inputs world).1.stacks ≡ world.stacks
  unfolding range_from
  range_from-stacks x [] world = refl
  range_from-stacks x (input ∷ inputs) world =
      continue_range-stacks (λ x' world'. range_from once x' inputs world') (once x input world)
        (λ x' world'. range_from-stacks x' inputs world')
      ∙ restores x input world

module _ {E T I R : Type 0} (initial : T)
    (call : E → I → (thread : ℕ) → World T → (Called R × E) × World T)
    (restores : (e : E) (input : I) (thread : ℕ) (world : World T)
      → (call e input thread world).1.stacks ≡ world.stacks) where
  pub stateful_try_run-stacks :
      (thread : ℕ) (x : StatefulEngine E T) (input : I) (world : World T)
      → (stateful_try_run initial call thread x input world).1.stacks ≡ world.stacks
  unfolding stateful_try_run
  stateful_try_run-stacks thread x input world =
      let ready = reset_before_run initial x.storage world in
      let (p, storage, world') = active initial thread x.storage ready in
      in_context-stacks thread p (call x.engine input thread) world'
        (restores x.engine input thread)
      ∙ active-stacks initial thread x.storage ready
      ∙ reset_before_run-stacks initial x.storage world

  -- The runs over a range, whether they return or throw, leave the stacks of all threads as they were,
  -- if each call of the engine inside does.
  pub stateful_try_run_range-stacks :
      (thread : ℕ) (x : StatefulEngine E T) (inputs : List I) (world : World T)
      → (stateful_try_run_range initial call thread x inputs world).1.stacks ≡ world.stacks
  unfolding stateful_try_run_range
  stateful_try_run_range-stacks thread x inputs world =
      range_from-stacks (stateful_try_run initial call thread) (stateful_try_run-stacks thread) x
        inputs world
