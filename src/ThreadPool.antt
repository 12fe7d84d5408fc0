-- ===== src/ThreadPool.antt =====
-- include/pb/runtime/thread_pool.hpp: the queue, the workers and the counters of `thread_pool`, and
-- what each of its critical sections does to them. A task is only a name here: a value of type `T`.
pub mod System
pub mod Counting
pub mod Invariant
pub mod Idle
pub mod Drain
mod Tests
use pipeline_c.Prelude.{
  ℕ, zero, suc, ◌+◌, ◌-◌, Bool, true, false, ◌&&◌, not, Option, none, some, List, [], ◌∷◌, ◌++◌,
  length, set, ltb, ◌==◌, if◌then◌else◌, codes, Text,
}
use pipeline_c.Result.{Result, ok, err}

-- Where a worker's thread stands: in `cv_.wait`, inside the task that it took, or behind its loop.
pub data Worker (T : Type 0) : Type 0 where
  waiting exited : Worker T
  running : T → Worker T

pub record ThreadPool (T : Type 0) : Type 0 where
  pub workers : List (Worker T)
  pub tasks : List T
  pub active_tasks : ℕ
  pub stop : Bool

-- `thread_pool_snapshot`
pub record Snapshot : Type 0 where
  pub worker_count : ℕ
  pub pending_tasks : ℕ
  pub active_tasks : ℕ

unfoldable pub outstanding_tasks : Snapshot → ℕ
outstanding_tasks s = s.pending_tasks + s.active_tasks

unfoldable pub idle : Snapshot → Bool
unfolding outstanding_tasks
idle s = outstanding_tasks s == 0

-- How a wait for an idle pool goes on: it throws, it blocks, or it returns.
pub data Wait : Type 0 where
  refused : Text → Wait
  blocked passed : Wait

abbrev pub no_tasks : {T : Type 0} → List T → Bool
no_tasks [] = true
no_tasks (t ∷ ts) = false

module _ {T : Type 0} where
  abbrev pub waiting_workers : ℕ → List (Worker T)
  waiting_workers zero = []
  waiting_workers (suc n) = waiting ∷ waiting_workers n

  -- the constructor: no thread at all becomes one
  unfoldable pub new_pool : ℕ → ThreadPool T
  new_pool num_threads = record {
    workers = waiting_workers (if num_threads == 0 then 1 else num_threads);
    tasks = [];
    active_tasks = 0;
    stop = false;
  }

  -- `post`; a call that throws leaves the pool as it is
  unfoldable pub post : T → ThreadPool T → Result (ThreadPool T) Text
  post f pool =
      if pool.stop
      then err (codes "post on stopped thread_pool")
      else ok (record pool { tasks = pool.tasks ++ f ∷ [] })

  unfoldable pub enqueue : T → ThreadPool T → Result (ThreadPool T) Text
  enqueue f pool =
      if pool.stop
      then err (codes "enqueue on stopped thread_pool")
      else ok (record pool { tasks = pool.tasks ++ f ∷ [] })

  unfoldable pub enqueue_range : List T → ThreadPool T → Result (ThreadPool T) Text
  enqueue_range fs pool =
      if pool.stop
      then err (codes "enqueue_range on stopped thread_pool")
      else ok (record pool { tasks = pool.tasks ++ fs })

  -- the loop of a worker behind its wait, from the queue: it leaves, or it takes the first task; it
  -- waits on while there is neither a task nor a stop
  unfoldable pub take_task : ℕ → (tasks : List T) → ThreadPool T → Option (ThreadPool T)
  take_task i [] pool =
      if pool.stop then some (record pool { workers = set pool.workers i exited }) else none
  take_task i (t ∷ rest) pool = some (record pool {
    workers = set pool.workers i (running t);
    tasks = rest;
    active_tasks = pool.active_tasks + 1;
  })

  unfoldable pub wake : ℕ → ThreadPool T → Option (ThreadPool T)
  unfolding take_task
  wake i pool = take_task i pool.tasks pool

  -- the predicate of the idle waits
  unfoldable pub is_idle : ThreadPool T → Bool
  is_idle pool = no_tasks pool.tasks && (pool.active_tasks == 0)

  -- `finish_task`, with `notify_idle`
  unfoldable pub finish_task : ThreadPool T → Bool × ThreadPool T
  finish_task pool =
      let active = if ltb 0 pool.active_tasks then pool.active_tasks - 1 else pool.active_tasks in
      let pool' : ThreadPool T = record pool { active_tasks = active } in (is_idle pool', pool')

  -- the end of a task: the worker's guard calls `finish_task`, and the worker goes back to wait
  unfoldable pub finish : ℕ → ThreadPool T → Bool × ThreadPool T
  finish i pool = finish_task (record pool { workers = set pool.workers i waiting })

  -- the destructor, up to the joins
  unfoldable pub shut_down : ThreadPool T → ThreadPool T
  shut_down pool = record pool { stop = true }

  unfoldable pub snapshot : ThreadPool T → Snapshot
  snapshot pool = record {
    worker_count = length pool.workers;
    pending_tasks = length pool.tasks;
    active_tasks = pool.active_tasks;
  }

  -- `wait_idle`, called where `current_pool_` is this pool (in one of its tasks) or is not
  unfoldable pub wait_idle : (in_task : Bool) → ThreadPool T → Wait
  unfolding is_idle
  wait_idle in_task pool =
      if in_task
      then refused (codes "thread_pool idle waits cannot be called from worker tasks")
      else if is_idle pool
      then passed
      else blocked
