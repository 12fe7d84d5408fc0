-- ===== src/ThreadPool/Drain.antt =====
-- The destructor of include/pb/runtime/thread_pool.hpp joins the workers: they drain the queue and
-- leave, after a number of steps that does not depend on the order of the steps.
use pipeline_c.Prelude.{
  ℕ, zero, suc, ◌+◌, ◌*◌, ◌≤◌, ◌≡◌, refl, ap, ◌∙◌, sym, Bool, true, some, List, [], ◌∷◌, length,
  get_elem?, set, count_if, arith, ◌⊎◌, inl, inr, subst, some-injective,
}
use pipeline_c.ThreadPool.{
  Worker, waiting, exited, running, ThreadPool, take_task, wake, finish_task, finish, shut_down,
}
use pipeline_c.ThreadPool.System.{
  System, WorkerStep, waking, finishing, shutting_down, working, Reach, next, Works, here, more,
}
use pipeline_c.ThreadPool.Counting.{
  weight, weight-set, is_busy, has_exited, AllExited, AllExited-weight, workers-cases,
}
use pipeline_c.ThreadPool.Invariant.{Inv, Reach-Inv, let_go}
use pipeline_c.ThreadPool.Idle.{quiet_lem, Step-stopped}

-- The steps that a worker has before it if it finds no further task.
abbrev pub to_exit : {T : Type 0} → Worker T → ℕ
to_exit waiting = 1
to_exit exited = 0
to_exit (running t) = 2

-- The steps that the workers of a pool have before them: two for each task in the queue, and those
-- that end their loops.
abbrev pub remaining : {T : Type 0} → ThreadPool T → ℕ
remaining pool = 2 * length pool.tasks + weight to_exit pool.workers

abbrev pub steps : {T : Type 0} {s t : System T} → Works s t → ℕ
steps here = 0
steps (more r w) = suc (steps r)

module _ {T : Type 0} where
  take_task-remaining :
      (pool p : ThreadPool T) (i : ℕ) (ts : List T)
      → get_elem? pool.workers i ≡ some waiting
      → pool.tasks ≡ ts
      → take_task i ts pool ≡ some p
      → remaining pool ≡ suc (remaining p)
  unfolding take_task
  take_task-remaining pool p i [] h empty e =
      subst (λ (x : ThreadPool T). remaining pool ≡ suc (remaining x)) (let_go pool.stop p _ e).1
        (omega (arith, weight-set to_exit pool.workers i exited waiting h))
  take_task-remaining pool p i (t ∷ ts) h full e =
      subst (λ (x : ThreadPool T). remaining pool ≡ suc (remaining x)) (some-injective _ _ e)
        (omega (arith, ap length full, weight-set to_exit pool.workers i (running t) waiting h))

  WorkerStep-remaining :
      {s t : System T} → WorkerStep s t → remaining s.pool ≡ suc (remaining t.pool)
  unfolding wake finish finish_task
  WorkerStep-remaining {s} (waking i {p} h e) = take_task-remaining s.pool p i s.pool.tasks h refl e
  WorkerStep-remaining {s} (finishing i t h) =
      omega (arith, weight-set to_exit s.pool.workers i waiting (running t) h)

  -- However the workers interleave, each of their steps brings the pool nearer to its end by one, so
  -- that no run of theirs is longer than `remaining`.
  pub Works-steps : {s t : System T} (r : Works s t) → steps r + remaining t.pool ≡ remaining s.pool
  Works-steps here = omega arith
  Works-steps (more r w) = omega (arith, Works-steps r, WorkerStep-remaining w)

  take_task-stopped :
      (i : ℕ) (ts : List T) (pool : ThreadPool T)
      → pool.stop ≡ true
      → (p : ThreadPool T) × (take_task i ts pool ≡ some p)
  unfolding take_task
  take_task-stopped i [] pool h = (record pool { workers = set pool.workers i exited }, rw h refl)
  take_task-stopped i (t ∷ ts) pool h = (_, refl)

  -- In a stopped pool some worker can go on, until all have left.
  can_work :
      (s : System T)
      → s.pool.stop ≡ true
      → ((t : System T) × WorkerStep s t) ⊎ AllExited s.pool.workers
  unfolding wake
  can_work s h = elim (workers-cases s.pool.workers) [
    | inl (i, t, e) ↦ inl (_, finishing i t e)
    | inr (inl (i, e)) ↦ inl (_, waking i e (take_task-stopped i s.pool.tasks s.pool h).1)
    | inr (inr e) ↦ inr e
  ]

  drain :
      (fuel : ℕ) {s t : System T}
      → Works s t
      → t.pool.stop ≡ true
      → remaining t.pool ≤ fuel
      → (u : System T) × Works s u × AllExited u.pool.workers
  drain zero {t} r h bound = elim (can_work t h) [
    | inl (u, w) ↦ absurd (omega (arith, WorkerStep-remaining w))
    | inr e ↦ (t, r, e)
  ]
  drain (suc fuel) {t} r h bound = elim (can_work t h) [
    | inl (u, w) ↦
        drain fuel (more r w) (Step-stopped (working w) h).0 (omega (arith, WorkerStep-remaining w))
    | inr e ↦ (t, r, e)
  ]

  Works-stopped :
      {s t : System T}
      → Works s t
      → s.pool.stop ≡ true
      → (t.pool.stop ≡ true) × (t.posted ≡ s.posted)
  Works-stopped here h = (h, refl)
  Works-stopped (more r w) h =
      let (stopped, same) = Works-stopped r h in
      let (stopped', same') = Step-stopped (working w) stopped in (stopped', same' ∙ same)

  module _ {n : ℕ} where
    Works-Reach : {s t : System T} → Reach n s → Works s t → Reach n t
    Works-Reach reach here = reach
    Works-Reach reach (more r w) = next (Works-Reach reach r) (working w)

    -- Where all workers have left, no task waits and none runs.
    AllExited-quiet :
        {s : System T}
        → Inv n s
        → AllExited s.pool.workers
        → (s.pool.tasks ≡ []) × (s.pool.active_tasks ≡ 0)
    AllExited-quiet {s} inv e = (
      elim inv.left [
        | inl h ↦ absurd (ground (arith, inv.size, AllExited-weight has_exited s.pool.workers e))
        | inr (_, h) ↦ h
      ],
      inv.counted ∙ AllExited-weight is_busy s.pool.workers e ∙ omega arith,
    )

    -- The destructor returns: whatever state the pool has come to, once it is stopped its workers can
    -- go on until all have left, in no more steps than remain to them, and then the tasks are those
    -- that were posted before the stop, each finished as often as it was posted.
    pub shut_down-drains :
        {s : System T}
        → Reach n s
        → (t : System T) × (r : Works (record s { pool = shut_down s.pool }) t) × (steps r
            ≤ remaining s.pool)
          × AllExited t.pool.workers
          × (t.posted ≡ s.posted)
          × ((q : T → Bool) → count_if q s.posted ≡ count_if q t.finished)
    unfolding shut_down
    shut_down-drains {s} reach =
        let stopped : System T = record s { pool = shut_down s.pool } in
        let (t, r, e) =
          drain (remaining stopped.pool) {s = stopped} {t = stopped} here refl (omega arith) in
        let inv = Reach-Inv (Works-Reach (next reach shutting_down) r) in
        let (empty, rest) = AllExited-quiet inv e in
        let same = (Works-stopped r refl).1 in
        (
          t,
          r,
          omega (arith, Works-steps r),
          e,
          same,
          λ q. ap (count_if q) (sym same) ∙ (quiet_lem inv empty rest).1 q,
        )
