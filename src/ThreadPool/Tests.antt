-- ===== src/ThreadPool/Tests.antt =====
-- A pool of two workers and three tasks, and the theorems at it.
use pipeline_c.Prelude.{ℕ, ◌+◌, ◌≤◌, ◌≡◌, refl, Bool, true, false, [], ◌∷◌, count_if, codes}
use pipeline_c.Result.{err}
use pipeline_c.ThreadPool.{
  waiting, running, new_pool, post, enqueue, enqueue_range, take_task, wake, is_idle, finish_task,
  finish, shut_down, snapshot, outstanding_tasks, idle, wait_idle, blocked,
}
use pipeline_c.ThreadPool.System.{
  System, WorkerStep, waking, finishing, enqueuing_range, working, Reach, start, next, Works, here,
  more,
}
use pipeline_c.ThreadPool.Counting.{AllExited}
use pipeline_c.ThreadPool.Idle.{wait_idle-all_finished, Step-notified}
use pipeline_c.ThreadPool.Drain.{steps, remaining, Works-steps, shut_down-drains}

-- Opens what the steps compute with.
opened : Unit {0}
unfolding new_pool post enqueue enqueue_range take_task wake is_idle finish_task finish shut_down
    snapshot outstanding_tasks idle wait_idle
opened = tt

record Reached : Type 0 where
  system : System ℕ
  reach : Reach 2 system

-- Three tasks, of which two run.
abbrev two_run : Reached
unfolding opened
two_run = record {
  system = _;
  reach =
      next
        (next (next start (enqueuing_range (7 ∷ 8 ∷ 7 ∷ []) refl)) (working (waking 1 refl refl)))
        (working (waking 0 refl refl));
}

-- The same, worked off: one wait goes on when the last task has ended.
abbrev all_done : Reached
unfolding opened
all_done = record {
  system = _;
  reach =
      next
        (next
          (next (next two_run.reach (working (finishing 1 7 refl))) (working (waking 1 refl refl)))
          (working (finishing 0 8 refl)))
        (working (finishing 1 7 refl));
}

-- One task runs, and none waits.
abbrev last_one : System ℕ
last_one = record {
  pool = record { workers = waiting ∷ running 7 ∷ []; tasks = []; active_tasks = 1; stop = false };
  posted = 7 ∷ [];
  started = 7 ∷ [];
  finished = [];
}

abbrev one_step :
    WorkerStep last_one (record last_one { pool = (finish 1 last_one.pool).1; finished = 7 ∷ [] })
one_step = finishing 1 7 refl

all_done_tasks :
    (all_done.system.started ≡ 7 ∷ 8 ∷ 7 ∷ []) × (all_done.system.finished ≡ 7 ∷ 8 ∷ 7 ∷ [])
unfolding opened
all_done_tasks = (refl, refl)

two_run_waits : wait_idle false two_run.system.pool ≡ blocked
unfolding opened
two_run_waits = refl

stopped_post : post 9 (shut_down two_run.system.pool) ≡ err (codes "post on stopped thread_pool")
unfolding opened
stopped_post = refl

wait_idle-all_finished_example :
    (all_done.system.posted ≡ all_done.system.started)
    × ((q : ℕ → Bool) → count_if q all_done.system.posted ≡ count_if q all_done.system.finished)
unfolding opened
wait_idle-all_finished_example = wait_idle-all_finished false all_done.reach refl

Step-notified_example : (i : ℕ) × (finish i last_one.pool ≡ (true, (finish 1 last_one.pool).1))
unfolding opened
Step-notified_example = Step-notified {s = last_one} (working (finishing 1 7 refl)) refl refl

Works-steps_example :
    steps (more here one_step) + remaining (finish 1 last_one.pool).1 ≡ remaining last_one.pool
unfolding opened
Works-steps_example = Works-steps (more here one_step)

shut_down-drains_example :
    (t : System ℕ) × (r : Works (record two_run.system { pool = shut_down two_run.system.pool }) t)
    × (steps r ≤ remaining two_run.system.pool)
    × AllExited t.pool.workers
    × (t.posted ≡ two_run.system.posted)
    × ((q : ℕ → Bool) → count_if q two_run.system.posted ≡ count_if q t.finished)
shut_down-drains_example = shut_down-drains two_run.reach
