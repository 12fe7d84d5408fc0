-- ===== src/ThreadPool/Counting.antt =====
-- Sums over the workers of a pool (include/pb/runtime/thread_pool.hpp).
use pipeline_c.Prelude.{
  ℕ, zero, suc, ◌+◌, ◌≤◌, ◌≡◌, refl, Bool, true, some, List, [], ◌∷◌, length, get_elem?, set, All,
  ◌*◌, count_if, if◌then◌else◌, arith, ◌⊎◌, inl, inr,
}
use pipeline_c.ThreadPool.{Worker, waiting, exited, running, waiting_workers}

pub length-waiting_workers : (T : Type 0) (n : ℕ) → length (waiting_workers {T = T} n) ≡ n
length-waiting_workers T zero = refl
length-waiting_workers T (suc n) = omega (arith, length-waiting_workers T n)

module _ {T : Type 0} where
  abbrev pub weight : (Worker T → ℕ) → List (Worker T) → ℕ
  weight f [] = 0
  weight f (w ∷ ws) = f w + weight f ws

  pub weight-set :
      (f : Worker T → ℕ) (ws : List (Worker T)) (i : ℕ) (v w : Worker T)
      → get_elem? ws i ≡ some w
      → weight f (set ws i v) + f w ≡ weight f ws + f v
  weight-set f [] i v w h = cc
  weight-set f (x ∷ ws) zero v w h = grind arith
  weight-set f (x ∷ ws) (suc i) v w h = omega (arith, weight-set f ws i v w h)

  pub weight-waiting_workers :
      (f : Worker T → ℕ) (n : ℕ) → f waiting ≡ 0 → weight f (waiting_workers n) ≡ 0
  weight-waiting_workers f zero h = refl
  weight-waiting_workers f (suc n) h = omega (arith, h, weight-waiting_workers f n h)

  -- One for a worker inside a task that passes the test.
  abbrev pub runs : (T → Bool) → Worker T → ℕ
  runs q waiting = 0
  runs q exited = 0
  runs q (running t) = if q t then 1 else 0

  abbrev pub is_busy : Worker T → ℕ
  is_busy waiting = 0
  is_busy exited = 0
  is_busy (running t) = 1

  abbrev pub has_exited : Worker T → ℕ
  has_exited waiting = 0
  has_exited exited = 1
  has_exited (running t) = 0

  pub weight_le_length :
      (f : Worker T → ℕ) (ws : List (Worker T))
      → ((w : Worker T) → f w ≤ 1)
      → weight f ws ≤ length ws
  weight_le_length f [] h = omega arith
  weight_le_length f (w ∷ ws) h = omega (arith, h w, weight_le_length f ws h)

  pub runs_le_is_busy :
      (q : T → Bool) (ws : List (Worker T)) → weight (runs q) ws ≤ weight is_busy ws
  runs_le_is_busy q [] = omega arith
  runs_le_is_busy q (waiting ∷ ws) = omega (arith, runs_le_is_busy q ws)
  runs_le_is_busy q (exited ∷ ws) = omega (arith, runs_le_is_busy q ws)
  runs_le_is_busy q (running t ∷ ws) = ground (arith, runs_le_is_busy q ws)

  abbrev pub AllExited : List (Worker T) → Type 0
  AllExited ws = All (λ w. w ≡ exited) ws

  -- Some worker is in a task, or else some worker waits, or else all have left.
  pub workers-cases :
      (ws : List (Worker T))
      → ((i : ℕ) × (t : T) × (get_elem? ws i ≡ some (running t)))
        ⊎ (((i : ℕ) × (get_elem? ws i ≡ some waiting)) ⊎ AllExited ws)
  workers-cases [] = inr (inr tt)
  workers-cases (waiting ∷ ws) = inr (inl (0, refl))
  workers-cases (running t ∷ ws) = inl (0, t, refl)
  workers-cases (exited ∷ ws) = elim (workers-cases ws) [
    | inl (i, t, h) ↦ inl (suc i, t, h)
    | inr (inl (i, h)) ↦ inr (inl (suc i, h))
    | inr (inr h) ↦ inr (inr (refl, h))
  ]

  pub AllExited-weight :
      (f : Worker T → ℕ) (ws : List (Worker T)) → AllExited ws → weight f ws ≡ length ws * f exited
  AllExited-weight f [] h = omega arith
  AllExited-weight f (w ∷ ws) (e, h) = rw e (omega (arith, AllExited-weight f ws h))

  pub count_all : (xs : List T) → count_if (λ _. true) xs ≡ length xs
  count_all [] = refl
  count_all (x ∷ xs) = omega (arith, count_all xs)

  pub runs_all : (ws : List (Worker T)) → weight (runs (λ _. true)) ws ≡ weight is_busy ws
  runs_all [] = refl
  runs_all (waiting ∷ ws) = omega (arith, runs_all ws)
  runs_all (exited ∷ ws) = omega (arith, runs_all ws)
  runs_all (running t ∷ ws) = omega (arith, runs_all ws)
