-- ===== src/ThreadPool/Idle.antt =====
-- The idle waits of include/pb/runtime/thread_pool.hpp: what a wait that returned may rely on, and
-- who wakes the waiters; and what stopping a pool forbids.
use pipeline_c.Prelude.{
  ℕ, ◌+◌, ◌≤◌, ◌≡◌, refl, ap, ◌∙◌, sym, Bool, true, false, ◌&&◌, some, List, [], ◌∷◌, ◌++◌,
  append-nil, length, length-append, count_if, if◌then◌else◌, ◌==◌, arith, Text, some-injective,
}
use pipeline_c.Result.{Result, ok, err}
use pipeline_c.ThreadPool.{
  Worker, waiting, exited, running, ThreadPool, no_tasks, post, enqueue, enqueue_range, take_task,
  wake, is_idle, finish_task, finish, shut_down, passed, wait_idle, snapshot, idle,
  outstanding_tasks,
}
use pipeline_c.ThreadPool.System.{
  System, waking, finishing, Step, posting, enqueuing, enqueuing_range, shutting_down, working,
  Reach,
}
use pipeline_c.ThreadPool.Counting.{is_busy, weight_le_length, runs_le_is_busy, count_all, runs_all}
use pipeline_c.ThreadPool.Invariant.{Inv, Reach-Inv, accepted, let_go}

is_idle-true :
    {T : Type 0} (tasks : List T) (active : ℕ)
    → (no_tasks tasks && (active == 0)) ≡ true
    → (tasks ≡ []) × (active ≡ 0)
is_idle-true [] active h = (refl, ground arith)
is_idle-true (t ∷ ts) active h = cc

wait_idle-passed :
    {T : Type 0} (in_task : Bool) (pool : ThreadPool T)
    → wait_idle in_task pool ≡ passed
    → is_idle pool ≡ true
unfolding wait_idle
wait_idle-passed in_task pool h = ground arith

module _ {T : Type 0} {n : ℕ} {s : System T} where
  -- Where no task waits and none runs, what was posted has been started in order and is finished.
  pub quiet_lem :
      Inv n s
      → s.pool.tasks ≡ []
      → s.pool.active_tasks ≡ 0
      → (s.posted ≡ s.started) × ((q : T → Bool) → count_if q s.posted ≡ count_if q s.finished)
  quiet_lem inv empty rest =
      let same = inv.in_order ∙ ap (λ x. s.started ++ x) empty ∙ append-nil s.started in
      (
        same,
        λ q.
            ap (count_if q) same
            ∙ omega (arith, inv.once q, inv.counted, rest, runs_le_is_busy q s.pool.workers),
      )

  -- When a wait for an idle pool returns, the tasks were started in the order in which they were
  -- posted, and each task that was posted is finished as often as it was posted.
  pub wait_idle-all_finished :
      (in_task : Bool)
      → Reach n s
      → wait_idle in_task s.pool ≡ passed
      → (s.posted ≡ s.started) × ((q : T → Bool) → count_if q s.posted ≡ count_if q s.finished)
  unfolding is_idle
  wait_idle-all_finished in_task r h =
      let (empty, rest) = is_idle-true s.pool.tasks _ (wait_idle-passed in_task s.pool h) in
      quiet_lem (Reach-Inv r) empty rest

is_busy_le_one : {T : Type 0} (w : Worker T) → is_busy w ≤ 1
is_busy_le_one waiting = omega arith
is_busy_le_one exited = omega arith
is_busy_le_one (running t) = omega arith

outstanding-eq-idle :
    {T : Type 0} (tasks : List T) (active : ℕ)
    → ((length tasks + active) == 0) ≡ (no_tasks tasks && (active == 0))
outstanding-eq-idle [] active = ground arith
outstanding-eq-idle (t ∷ ts) active = ground arith

-- A snapshot of a pool says that it is idle where the idle waits return, it counts no more active
-- tasks than workers, and its outstanding tasks are those that were posted and are not finished.
pub snapshot-lem :
    {T : Type 0} {n : ℕ} {s : System T}
    → Reach n s
    → (idle (snapshot s.pool) ≡ is_idle s.pool)
      × ((snapshot s.pool).active_tasks ≤ (snapshot s.pool).worker_count)
      × (length s.posted ≡ outstanding_tasks (snapshot s.pool) + length s.finished)
unfolding idle snapshot is_idle outstanding_tasks
snapshot-lem {s} r =
    let inv = Reach-Inv r in
    let ws = s.pool.workers in
    (
      outstanding-eq-idle s.pool.tasks s.pool.active_tasks,
      omega (arith, inv.counted, weight_le_length is_busy ws is_busy_le_one),
      omega (
        arith,
        ap length inv.in_order,
        length-append s.started s.pool.tasks,
        inv.once (λ _. true),
        inv.counted,
        count_all s.started,
        count_all s.finished,
        runs_all ws,
      ),
    )

clash : {G : Type 0} (b : Bool) → b ≡ false → b ≡ true → G
clash true h k = cc
clash false h k = cc

no_tasks-append :
    {T : Type 0} (xs ys : List T) (b : Bool)
    → (no_tasks (xs ++ ys) && b) ≡ true
    → (no_tasks xs && b) ≡ true
no_tasks-append [] ys true h = refl
no_tasks-append [] [] false h = cc
no_tasks-append [] (y ∷ ys) false h = cc
no_tasks-append (x ∷ xs) ys b h = cc

module _ {T : Type 0} (s : System T) where
  accepted-idle :
      (ts : List T) (m : Text) (p : ThreadPool T)
      → ◌≡◌ {A = Result (ThreadPool T) Text}
          (if s.pool.stop then err m else ok (record s.pool { tasks = s.pool.tasks ++ ts }))
          (ok p)
      → is_idle p ≡ true
      → is_idle s.pool ≡ true
  unfolding is_idle
  accepted-idle ts m p h idle =
      no_tasks-append s.pool.tasks ts _ (ap is_idle (accepted s.pool.stop m p _ h).1 ∙ idle)

  take_task-idle :
      (i : ℕ) (ts : List T) (p : ThreadPool T)
      → take_task i ts s.pool ≡ some p
      → is_idle p ≡ true
      → is_idle s.pool ≡ true
  unfolding take_task is_idle
  take_task-idle i [] p h idle = ap is_idle (let_go s.pool.stop p _ h).1 ∙ idle
  take_task-idle i (t ∷ ts) p h idle = absurd (
      omega (
        arith,
        (is_idle-true ts (s.pool.active_tasks + 1) (ap is_idle (some-injective _ _ h) ∙ idle)).1,
      ))

take_task-stop :
    {T : Type 0} (i : ℕ) (ts : List T) (pool p : ThreadPool T)
    → take_task i ts pool ≡ some p
    → p.stop ≡ pool.stop
unfolding take_task
take_task-stop i [] pool p h = sym (ap (λ x. x.stop) (let_go pool.stop p _ h).1)
take_task-stop {T} i (t ∷ ts) pool p h =
    sym (ap (λ (x : ThreadPool T). x.stop) (some-injective _ _ h))

module _ {T : Type 0} where
  -- No idle wait sleeps on: a step that makes a pool idle is the end of a task, and it notifies the
  -- threads that wait for the pool to be idle.
  pub Step-notified :
      {s t : System T}
      → Step s t
      → is_idle s.pool ≡ false
      → is_idle t.pool ≡ true
      → (i : ℕ) × (finish i s.pool ≡ (true, t.pool))
  unfolding post enqueue enqueue_range shut_down wake finish finish_task is_idle
  Step-notified {s} (posting t {p} e) before now =
      clash _ before (accepted-idle s (t ∷ []) _ p e now)
  Step-notified {s} (enqueuing t {p} e) before now =
      clash _ before (accepted-idle s (t ∷ []) _ p e now)
  Step-notified {s} (enqueuing_range ts {p} e) before now =
      clash _ before (accepted-idle s ts _ p e now)
  Step-notified {s} shutting_down before now = clash (is_idle s.pool) before now
  Step-notified {s} (working (waking i {p} h e)) before now =
      clash _ before (take_task-idle s i s.pool.tasks p e now)
  Step-notified {s} (working (finishing i t h)) before now =
      (i, ap (λ b. (b, (finish i s.pool).1)) now)

  -- Once a pool is stopped it stays so, and no task is taken in.
  pub Step-stopped :
      {s t : System T}
      → Step s t
      → s.pool.stop ≡ true
      → (t.pool.stop ≡ true) × (t.posted ≡ s.posted)
  unfolding post enqueue enqueue_range shut_down wake finish finish_task
  Step-stopped {s} (posting t {p} e) h = clash _ (accepted s.pool.stop _ p _ e).0 h
  Step-stopped {s} (enqueuing t {p} e) h = clash _ (accepted s.pool.stop _ p _ e).0 h
  Step-stopped {s} (enqueuing_range ts {p} e) h = clash _ (accepted s.pool.stop _ p _ e).0 h
  Step-stopped shutting_down h = (refl, refl)
  Step-stopped {s} (working (waking i {p} w e)) h =
      (take_task-stop i s.pool.tasks s.pool p e ∙ h, refl)
  Step-stopped (working (finishing i t e)) h = (h, refl)
