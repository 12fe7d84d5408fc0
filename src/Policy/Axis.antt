-- ===== src/Policy/Axis.antt =====
-- The markers of one axis in a list of policies: their number, and the first of them.
use pipeline_c.Prelude.{
  suc, ◌+◌, ◌≤◌, ◌≡◌, refl, sym, ◌∙◌, ap₂, Bool, none, some, List, [], ◌∷◌, ◌++◌, arith,
  if◌then◌else◌,
}
use mathlib.Core.List.{Permᴰ}
use pipeline_c.Policy.{Policy, policy_axis_count, first_policy_matching}

module _ (p : Policy → Bool) where
  swap_count :
      (a b : Policy) (l : List Policy)
      → policy_axis_count p (a ∷ b ∷ l) ≡ policy_axis_count p (b ∷ a ∷ l)
  unfolding policy_axis_count
  swap_count a b l = ground arith

  -- The order of a list of policies does not change how many markers an axis has.
  pub policy_axis_count-Perm :
      {ps qs : List Policy} → Permᴰ ps qs → policy_axis_count p ps ≡ policy_axis_count p qs
  unfolding policy_axis_count
  policy_axis_count-Perm Permᴰ.nil = refl
  policy_axis_count-Perm (Permᴰ.cons e perm) =
      ap₂ (λ c n. if p c then suc n else n) e (policy_axis_count-Perm perm)
  policy_axis_count-Perm (Permᴰ.swap {a} {b} {l = l} e₁ e₂) =
      swap_count a b l ∙ ap₂ (λ c d. policy_axis_count p (c ∷ d ∷ l)) e₂ e₁
  policy_axis_count-Perm (Permᴰ.trans perm₁ perm₂) =
      policy_axis_count-Perm perm₁ ∙ policy_axis_count-Perm perm₂

  swap_first :
      (a b : Policy) (l : List Policy)
      → policy_axis_count p (a ∷ b ∷ l) ≤ 1
      → first_policy_matching p (a ∷ b ∷ l) ≡ first_policy_matching p (b ∷ a ∷ l)
  unfolding policy_axis_count first_policy_matching
  swap_first a b l few = ground arith

  count_tail :
      (a : Policy) (l : List Policy) → policy_axis_count p (a ∷ l) ≤ 1 → policy_axis_count p l ≤ 1
  unfolding policy_axis_count
  count_tail a l few = ground arith

  -- Of an axis with at most one marker, the order does not change which one is the first.
  pub first_policy_matching-Perm :
      {ps qs : List Policy}
      → Permᴰ ps qs
      → policy_axis_count p ps ≤ 1
      → first_policy_matching p ps ≡ first_policy_matching p qs
  unfolding first_policy_matching
  first_policy_matching-Perm Permᴰ.nil few = refl
  first_policy_matching-Perm (Permᴰ.cons {a} {l₁ = l} e perm) few =
      ap₂ (λ c rest. if p c then some c else rest) e
        (first_policy_matching-Perm perm (count_tail a l few))
  first_policy_matching-Perm (Permᴰ.swap {a} {b} {l = l} e₁ e₂) few =
      swap_first a b l few ∙ ap₂ (λ c d. first_policy_matching p (c ∷ d ∷ l)) e₂ e₁
  first_policy_matching-Perm (Permᴰ.trans perm₁ perm₂) few =
      first_policy_matching-Perm perm₁ few
      ∙ first_policy_matching-Perm perm₂ (rw (sym (policy_axis_count-Perm perm₁)) few)

  -- A marker that a list of policies starts with stays the first one.
  pub first_policy_matching-append :
      (ps qs : List Policy) (m : Policy)
      → first_policy_matching p ps ≡ some m
      → first_policy_matching p (ps ++ qs) ≡ some m
  unfolding first_policy_matching
  first_policy_matching-append [] qs m found = ground arith
  first_policy_matching-append (a ∷ ps) qs m found =
      ground (arith, first_policy_matching-append ps qs m)

  pub policy_axis_count-append :
      (ps qs : List Policy)
      → policy_axis_count p (ps ++ qs) ≡ policy_axis_count p ps + policy_axis_count p qs
  unfolding policy_axis_count
  policy_axis_count-append [] qs = ground arith
  policy_axis_count-append (a ∷ ps) qs = ground (arith, policy_axis_count-append ps qs)

  -- A marker is found where the axis has any.
  pub first_policy_matching-none :
      (ps : List Policy) → policy_axis_count p ps ≡ 0 → first_policy_matching p ps ≡ none
  unfolding first_policy_matching policy_axis_count
  first_policy_matching-none [] absent = refl
  first_policy_matching-none (a ∷ ps) absent = ground (arith, first_policy_matching-none ps)

  pub policy_axis_count-found :
      (ps : List Policy) (m : Policy)
      → first_policy_matching p ps ≡ some m
      → 1 ≤ policy_axis_count p ps
  unfolding first_policy_matching policy_axis_count
  policy_axis_count-found [] m found = ground arith
  policy_axis_count-found (a ∷ ps) m found = ground (arith, policy_axis_count-found ps m)

  -- A marker of an axis that has at most one stays, and no later policy is of its axis.
  pub first_policy_matching_kept :
      (ps qs : List Policy) (m : Policy)
      → policy_axis_count p (ps ++ qs) ≤ 1
      → first_policy_matching p ps ≡ some m
      → (first_policy_matching p (ps ++ qs) ≡ some m) × (first_policy_matching p qs ≡ none)
  first_policy_matching_kept ps qs m few found =
      let some_here = policy_axis_count-found ps m found in
      let sum = policy_axis_count-append ps qs in
      (first_policy_matching-append ps qs m found, first_policy_matching-none qs (omega arith))
