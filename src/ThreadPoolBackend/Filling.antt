-- ===== src/ThreadPoolBackend/Filling.antt =====
-- The slots of a parallel fan-in of include/pb/runtime/thread_pool_backend.hpp while its cases are
-- scheduled and run: which are filled, and which are blank.
use native.Mathlib.Decide.{ℕ_discrete}
use pipeline_c.Prelude.{
  ℕ, suc, ◌+◌, ◌≤◌, ◌<◌, ◌≡◌, refl, ap, ◌∙◌, sym, subst, some, some-injective, List, [], ◌∷◌, ◌++◌,
  get_elem?, set, All, count_if, count_if-append, get_elem?-set, get_elem?-set_ne, if◌then◌else◌,
  ◌==◌, arith, ◌⊎◌, inl, inr,
}
use pipeline_c.Error.{StageId}
use pipeline_c.Stage.{FanInCaseResult, Value, Case}
use pipeline_c.Sequential.Settling.{default_slot}
use pipeline_c.ThreadPoolBackend.{CancellationToken, Task}
use pipeline_c.ThreadPoolBackend.Slots.{parallel_slot}

-- How often case `j` is among the posted tasks.
abbrev pub waiting_tasks : {S A : Type 0} → ℕ → List (Task S A) → ℕ
waiting_tasks j posted = count_if (λ t. t.0 == j) posted

pub waiting_tasks-eq-zero :
    {S A : Type 0} (n : ℕ) (posted : List (Task S A))
    → All (λ t. t.0 < n) posted
    → waiting_tasks n posted ≡ 0
waiting_tasks-eq-zero n [] h = refl
waiting_tasks-eq-zero n (t ∷ posted) (below, h) = ground (arith, waiting_tasks-eq-zero n posted h)

-- A statement about case `i` is one about any case at its index.
case_at :
    {S A : Type 0} (cases : List (Case S A)) {i j : ℕ} {c d : Case S A} (P : ℕ → Case S A → Type 0)
    → get_elem? cases i ≡ some c
    → get_elem? cases j ≡ some d
    → i ≡ j
    → P i c
    → P j d
case_at cases {i} {j} {c} {d} P here there e p =
    let same : c ≡ d = some-injective _ _ (sym here ∙ ap (get_elem? cases) e ∙ there) in
    subst (λ x. P x d) e (subst (P i) same p)

pub waiting_tasks-snoc :
    {S A : Type 0} (i j : ℕ) (c : Case S A) (posted : List (Task S A))
    → waiting_tasks j (posted ++ (i, c) ∷ []) ≡ waiting_tasks j posted + (if i == j then 1 else 0)
waiting_tasks-snoc i j c posted =
    omega (arith, count_if-append (λ t. t.0 == j) posted ((i, c) ∷ []))

pub waiting_tasks-middle :
    {S A : Type 0} (i j : ℕ) (c : Case S A) (front back : List (Task S A))
    → waiting_tasks j (front ++ (i, c) ∷ back)
      ≡ waiting_tasks j (front ++ back) + (if i == j then 1 else 0)
waiting_tasks-middle i j c front back = omega (
  arith,
  count_if-append (λ t. t.0 == j) front ((i, c) ∷ back),
  count_if-append (λ t. t.0 == j) front back,
)

module _ {S A : Type 0} (cancel : ℕ → CancellationToken) (branch_id : StageId) (input : Value A)
    (cases : List (Case S A)) where
  -- The slots of the cases that are scheduled and wait no more are filled, the others are blank.
  pub record SlotsOk (scheduled : ℕ) (posted : List (Task S A)) (slots : List (FanInCaseResult A))
      : Type 0 where
    pub filled :
        (j : ℕ) (c : Case S A)
        → get_elem? cases j ≡ some c
        → j < scheduled
        → waiting_tasks j posted ≡ 0
        → get_elem? slots j ≡ some (parallel_slot cancel branch_id input j c)
    pub blank :
        (j : ℕ) (c : Case S A)
        → get_elem? cases j ≡ some c
        → (scheduled ≤ j) ⊎ (1 ≤ waiting_tasks j posted)
        → get_elem? slots j ≡ some (default_slot j)

  module _ (i : ℕ) (c : Case S A) (posted : List (Task S A)) (slots : List (FanInCaseResult A))
      (here : get_elem? cases i ≡ some c) (old : SlotsOk i posted slots)
      (fresh : waiting_tasks i posted ≡ 0) where
    pub blank_here : get_elem? slots i ≡ some (default_slot i)
    blank_here = old.blank i c here (inl (omega arith))

    pub keep_slot :
        parallel_slot cancel branch_id input i c ≡ default_slot i → SlotsOk (suc i) posted slots
    keep_slot same = record {
      filled = λ j d at below free. elim (ℕ_discrete i j) [
        | yes e ↦
            case_at cases
              (λ k x. get_elem? slots k ≡ some (parallel_slot cancel branch_id input k x)) here at e
              (blank_here ∙ ap some (sym same))
        | no ne ↦ old.filled j d at (omega (arith, ne)) free
      ];
      blank = λ j d at h. old.blank j d at (elim h [ inl le ↦ inl (omega arith) | inr w ↦ inr w ]);
    }

    pub fail_slot : SlotsOk (suc i) posted (set slots i (parallel_slot cancel branch_id input i c))
    fail_slot =
        let slot = parallel_slot cancel branch_id input i c in
        record {
          filled = λ j d at below free. elim (ℕ_discrete i j) [
            | yes e ↦
                case_at cases
                  (λ k x.
                    get_elem? (set slots i slot) k
                    ≡ some (parallel_slot cancel branch_id input k x))
                  here at e (get_elem?-set slots i slot _ blank_here)
            | no ne ↦
                get_elem?-set_ne slots i j slot ne ∙ old.filled j d at (omega (arith, ne)) free
          ];
          blank = λ j d at h. elim (ℕ_discrete i j) [
            | yes e ↦ absurd (elim h [
              | inl le ↦ omega arith
              | inr w ↦ omega (arith, fresh, ap (λ k. waiting_tasks k posted) e)
            ])
            | no ne ↦
                get_elem?-set_ne slots i j slot ne
                ∙ old.blank j d at (elim h [ inl le ↦ inl (omega arith) | inr w ↦ inr w ])
          ];
        }

    pub post_slot : SlotsOk (suc i) (posted ++ (i, c) ∷ []) slots
    post_slot = record {
      filled = λ j d at below free.
          old.filled j d at (ground (arith, waiting_tasks-snoc i j c posted))
            (ground (arith, waiting_tasks-snoc i j c posted));
      blank = λ j d at h. elim (ℕ_discrete i j) [
        | yes e ↦
            case_at cases (λ k x. get_elem? slots k ≡ some (default_slot k)) here at e blank_here
        | no ne ↦ old.blank j d at (elim h [
          | inl le ↦ inl (omega arith)
          | inr w ↦ inr (ground (arith, waiting_tasks-snoc i j c posted))
        ])
      ];
    }

  module _ (i scheduled : ℕ) (c : Case S A) (front back : List (Task S A))
      (slots : List (FanInCaseResult A)) (here : get_elem? cases i ≡ some c) (below : i < scheduled)
      (old : SlotsOk scheduled (front ++ (i, c) ∷ back) slots)
      (once : waiting_tasks i (front ++ (i, c) ∷ back) ≤ 1) where
    pub blank_task : get_elem? slots i ≡ some (default_slot i)
    blank_task = old.blank i c here (inr (ground (arith, waiting_tasks-middle i i c front back)))

    pub run_slot :
        SlotsOk scheduled (front ++ back) (set slots i (parallel_slot cancel branch_id input i c))
    run_slot =
        let slot = parallel_slot cancel branch_id input i c in
        record {
          filled = λ j d at lt free. elim (ℕ_discrete i j) [
            | yes e ↦
                case_at cases
                  (λ k x.
                    get_elem? (set slots i slot) k
                    ≡ some (parallel_slot cancel branch_id input k x))
                  here at e (get_elem?-set slots i slot _ blank_task)
            | no ne ↦
                get_elem?-set_ne slots i j slot ne
                ∙ old.filled j d at lt (ground (arith, waiting_tasks-middle i j c front back))
          ];
          blank = λ j d at h. elim (ℕ_discrete i j) [
            | yes e ↦ absurd (elim h [
              | inl le ↦ omega arith
              | inr w ↦ ground (
                arith,
                waiting_tasks-middle i i c front back,
                ap (λ k. waiting_tasks k (front ++ back)) e,
              )
            ])
            | no ne ↦
                get_elem?-set_ne slots i j slot ne
                ∙ old.blank j d at (elim h [
                  | inl le ↦ inl le
                  | inr w ↦ inr (ground (arith, waiting_tasks-middle i j c front back))
                ])
          ];
        }
