-- ===== src/ThreadPool/System.antt =====
-- A pool of include/pb/runtime/thread_pool.hpp among its threads: each critical section is a step,
-- in any order, and the tasks that were posted, started and finished are written down beside it.
use pipeline_c.Prelude.{ℕ, ◌≡◌, some, List, [], ◌∷◌, ◌++◌, get_elem?}
use pipeline_c.Result.{ok}
use pipeline_c.ThreadPool.{
  waiting, running, ThreadPool, new_pool, post, enqueue, enqueue_range, wake, finish, shut_down,
}

pub record System (T : Type 0) : Type 0 where
  pub pool : ThreadPool T
  pub posted : List T
  pub started : List T
  pub finished : List T

-- The task that a worker is about to take.
abbrev pub next_tasks : {T : Type 0} → List T → List T
next_tasks [] = []
next_tasks (t ∷ ts) = t ∷ []

-- A step of a worker's thread.
pub data WorkerStep {T : Type 0} (s : System T) : System T → Type 0 where
  waking :
      (i : ℕ) {p : ThreadPool T}
      → get_elem? s.pool.workers i ≡ some waiting
      → wake i s.pool ≡ some p
      → WorkerStep s (record s { pool = p; started = s.started ++ next_tasks s.pool.tasks })
  finishing :
      (i : ℕ) (t : T)
      → get_elem? s.pool.workers i ≡ some (running t)
      → WorkerStep s (record s { pool = (finish i s.pool).1; finished = s.finished ++ t ∷ [] })

pub data Step {T : Type 0} (s : System T) : System T → Type 0 where
  posting :
      (t : T) {p : ThreadPool T}
      → post t s.pool ≡ ok p
      → Step s (record s { pool = p; posted = s.posted ++ t ∷ [] })
  enqueuing :
      (t : T) {p : ThreadPool T}
      → enqueue t s.pool ≡ ok p
      → Step s (record s { pool = p; posted = s.posted ++ t ∷ [] })
  enqueuing_range :
      (ts : List T) {p : ThreadPool T}
      → enqueue_range ts s.pool ≡ ok p
      → Step s (record s { pool = p; posted = s.posted ++ ts })
  shutting_down : Step s (record s { pool = shut_down s.pool })
  working : {t : System T} → WorkerStep s t → Step s t

abbrev pub new_system : {T : Type 0} → ℕ → System T
new_system n = record { pool = new_pool n; posted = []; started = []; finished = [] }

-- The states that a pool of `n` threads can come to.
pub data Reach {T : Type 0} (n : ℕ) : System T → Type 0 where
  start : Reach n (new_system n)
  next : {s t : System T} → Reach n s → Step s t → Reach n t

-- Runs of the workers alone.
pub data Works {T : Type 0} (s : System T) : System T → Type 0 where
  here : Works s s
  more : {t u : System T} → Works s t → WorkerStep t u → Works s u
