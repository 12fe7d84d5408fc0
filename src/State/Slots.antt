-- ===== src/State/Slots.antt =====
-- The table of thread states in include/pb/runtime/state.hpp.
use pipeline_c.Prelude.{
  ℕ, ◌≡◌, ◌≢◌, refl, sym, ◌∙◌, subst, true, false, some, some-injective, List, [], ◌∷◌, ◌==◌,
  ==_iff, Bool-cases, inl, inr, All,
}
use pipeline_c.State.{find_slot}
use pipeline_c.State.Spec.{Distinct}

-- A slot that is found is one of the table.
pub find_slot-All :
    (P : ℕ → Type 0) (t p : ℕ) (slots : List (ℕ × ℕ))
    → All (λ (e : ℕ × ℕ). P e.1) slots
    → find_slot t slots ≡ some p
    → P p
unfolding find_slot
find_slot-All P t p [] h e = cc
find_slot-All P t p ((u, q) ∷ slots) (h, hs) e = elim (Bool-cases (u == t)) [
  | inl same ↦ subst P (some-injective _ _ (rw same at e)) h
  | inr other ↦ find_slot-All P t p slots hs (rw other at e)
]

-- Different threads have different states.
pub find_slot-Distinct :
    (t u p q : ℕ) (slots : List (ℕ × ℕ))
    → Distinct slots
    → t ≢ u
    → find_slot t slots ≡ some p
    → find_slot u slots ≡ some q
    → q ≢ p
unfolding find_slot
find_slot-Distinct t u p q [] d apart e f = cc
find_slot-Distinct t u p q ((v, r) ∷ slots) (absent, d) apart e f = elim (Bool-cases (v == t)) [
  | inl at_t ↦ elim (Bool-cases (v == u)) [
    | inl at_u ↦ absurd (apart (sym ((==_iff v t).0 at_t) ∙ (==_iff v u).0 at_u))
    | inr not_u ↦
        let here = some-injective _ _ (rw at_t at e) in
        let there = find_slot-All (λ a. a ≢ r) u q slots absent (rw not_u at f) in
        λ k. there (k ∙ sym here)
  ]
  | inr not_t ↦ elim (Bool-cases (v == u)) [
    | inl at_u ↦
        let here = some-injective _ _ (rw at_u at f) in
        let there = find_slot-All (λ a. a ≢ r) t p slots absent (rw not_t at e) in
        λ k. there (sym k ∙ sym here)
    | inr not_u ↦ find_slot-Distinct t u p q slots d apart (rw not_t at e) (rw not_u at f)
  ]
]

-- A new slot is the one of its thread, and no other's.
pub find_slot-here :
    (t u p : ℕ) (slots : List (ℕ × ℕ)) → (u == t) ≡ true → find_slot t ((u, p) ∷ slots) ≡ some p
unfolding find_slot
find_slot-here t u p slots same = rw same refl

pub find_slot-apart :
    (t u p : ℕ) (slots : List (ℕ × ℕ))
    → (u == t) ≡ false
    → find_slot t ((u, p) ∷ slots) ≡ find_slot t slots
unfolding find_slot
find_slot-apart t u p slots other = rw other refl
