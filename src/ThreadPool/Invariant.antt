-- ===== src/ThreadPool/Invariant.antt =====
-- What holds in every state that a pool of include/pb/runtime/thread_pool.hpp can come to: no task
-- is lost or run twice, and the counter of active tasks is right.
use pipeline_c.Prelude.{
  ℕ, ◌+◌, ◌≡◌, refl, ap, ◌∙◌, sym, Bool, true, false, Option, none, some, List, [], ◌∷◌, ◌++◌,
  append_assoc, append-nil, length, length-set, count_if-append, get_elem?, count_if, if◌then◌else◌,
  ◌==◌, arith, ◌⊎◌, inl, inr, subst, Text, some-injective,
}
use pipeline_c.Result.{Result, ok, err}
use pipeline_c.ThreadPool.{
  waiting, exited, running, ThreadPool, new_pool, post, enqueue, enqueue_range, take_task, wake,
  finish_task, finish, shut_down,
}
use pipeline_c.ThreadPool.System.{
  System, next_tasks, WorkerStep, waking, finishing, Step, posting, enqueuing, enqueuing_range,
  shutting_down, working, Reach, start, next, new_system,
}
use pipeline_c.ThreadPool.Counting.{
  weight, weight-set, weight-waiting_workers, length-waiting_workers, runs, is_busy, has_exited,
}

pub record Inv {T : Type 0} (n : ℕ) (s : System T) : Type 0 where
  pub size : length s.pool.workers ≡ (if n == 0 then 1 else n)
  pub in_order : s.posted ≡ s.started ++ s.pool.tasks
  pub once :
      (q : T → Bool) → count_if q s.started ≡ weight (runs q) s.pool.workers + count_if q s.finished
  pub counted : s.pool.active_tasks ≡ weight is_busy s.pool.workers
  pub left : (weight has_exited s.pool.workers ≡ 0) ⊎ ((s.pool.stop ≡ true) × (s.pool.tasks ≡ []))

new_system-Inv : {T : Type 0} (n : ℕ) → Inv {T = T} n (new_system n)
unfolding new_pool
new_system-Inv {T} n =
    let m = if n == 0 then 1 else n in
    record {
      size = length-waiting_workers T m;
      in_order = refl;
      once = λ q. omega (arith, weight-waiting_workers (runs q) m refl);
      counted = sym (weight-waiting_workers is_busy m refl);
      left = inl (weight-waiting_workers has_exited m refl);
    }

left_or_empty :
    {T : Type 0} (m : ℕ) (t : T) (rest : List T) {tasks : List T} {b : Bool}
    → tasks ≡ t ∷ rest
    → (m ≡ 0) ⊎ ((b ≡ true) × (tasks ≡ []))
    → m ≡ 0
left_or_empty m t rest full (inl e) = e
left_or_empty m t rest full (inr (_, e)) = cc

pub accepted :
    {T : Type 0} (b : Bool) (m : Text) (p q : ThreadPool T)
    → ◌≡◌ {A = Result (ThreadPool T) Text} (if b then err m else ok q) (ok p)
    → (b ≡ false) × (q ≡ p)
accepted true m p q h = cc
accepted false m p q h = (refl, cc)

pub let_go :
    {T : Type 0} (b : Bool) (p q : ThreadPool T)
    → ◌≡◌ {A = Option (ThreadPool T)} (if b then some q else none) (some p)
    → (b ≡ true) × (q ≡ p)
let_go true p q h = (refl, cc)
let_go false p q h = cc

module _ {T : Type 0} {n : ℕ} where
  -- Tasks that are put in a queue that is not stopped.
  queued-Inv :
      (s : System T) (ts : List T)
      → s.pool.stop ≡ false
      → Inv n s
      → Inv n (record s {
        pool = record s.pool { tasks = s.pool.tasks ++ ts };
        posted = s.posted ++ ts;
      })
  queued-Inv s ts h inv = record {
    size = inv.size;
    in_order = ap (λ x. x ++ ts) inv.in_order ∙ append_assoc s.started s.pool.tasks ts;
    once = inv.once;
    counted = inv.counted;
    left = elim inv.left [ inl e ↦ inl e | inr (e, _) ↦ cc ];
  }

  -- A worker that waits leaves, or takes the first task.
  take_task-Inv :
      (s : System T) (i : ℕ) (ts : List T) (p : ThreadPool T)
      → get_elem? s.pool.workers i ≡ some waiting
      → s.pool.tasks ≡ ts
      → take_task i ts s.pool ≡ some p
      → Inv n s
      → Inv n (record s { pool = p; started = s.started ++ next_tasks ts })
  unfolding take_task
  take_task-Inv s i [] p h empty e inv =
      let (stopped, same) = let_go s.pool.stop p _ e in
      subst (λ (x : ThreadPool T). Inv n (record s { pool = x; started = s.started ++ [] })) same
        (record {
          size = length-set s.pool.workers i exited ∙ inv.size;
          in_order = inv.in_order ∙ ap (λ x. x ++ s.pool.tasks) (sym (append-nil s.started));
          once = λ q. omega (
            arith,
            inv.once q,
            count_if-append q s.started [],
            weight-set (runs q) s.pool.workers i exited waiting h,
          );
          counted =
              omega (arith, inv.counted, weight-set is_busy s.pool.workers i exited waiting h);
          left = inr (stopped, empty);
        })
  take_task-Inv s i (t ∷ rest) p h full e inv =
      let none_left = left_or_empty (weight has_exited s.pool.workers) t rest full inv.left in
      subst (λ (x : ThreadPool T). Inv n (record s { pool = x; started = s.started ++ t ∷ [] }))
        (some-injective _ _ e)
        (record {
          size = length-set s.pool.workers i (running t) ∙ inv.size;
          in_order =
              inv.in_order
              ∙ ap (λ x. s.started ++ x) full
              ∙ sym (append_assoc s.started (t ∷ []) rest);
          once = λ q. omega (
            arith,
            inv.once q,
            count_if-append q s.started (t ∷ []),
            weight-set (runs q) s.pool.workers i (running t) waiting h,
          );
          counted =
              omega (arith, inv.counted, weight-set is_busy s.pool.workers i (running t) waiting h);
          left = inl (
              omega
                (arith, none_left, weight-set has_exited s.pool.workers i (running t) waiting h));
        })

  finish-Inv :
      (s : System T) (i : ℕ) (t : T)
      → get_elem? s.pool.workers i ≡ some (running t)
      → Inv n s
      → Inv n (record s { pool = (finish i s.pool).1; finished = s.finished ++ t ∷ [] })
  unfolding finish finish_task
  finish-Inv s i t h inv =
      let busy = weight-set is_busy s.pool.workers i waiting (running t) h in
      let gone = weight-set has_exited s.pool.workers i waiting (running t) h in
      record {
        size = length-set s.pool.workers i waiting ∙ inv.size;
        in_order = inv.in_order;
        once = λ q. omega (
          arith,
          inv.once q,
          count_if-append q s.finished (t ∷ []),
          weight-set (runs q) s.pool.workers i waiting (running t) h,
        );
        counted = ground (arith, inv.counted, busy);
        left = elim inv.left [ inl e ↦ inl (omega (arith, e, gone)) | inr e ↦ inr e ];
      }

  WorkerStep-Inv : {s t : System T} → WorkerStep s t → Inv n s → Inv n t
  unfolding wake
  WorkerStep-Inv {s} (waking i {p} h e) inv = take_task-Inv s i s.pool.tasks p h refl e inv
  WorkerStep-Inv {s} (finishing i t h) inv = finish-Inv s i t h inv

  -- A call that puts tasks in the queue and does not throw.
  accepted-Inv :
      (s : System T) (ts : List T) (m : Text) (p : ThreadPool T)
      → ◌≡◌ {A = Result (ThreadPool T) Text}
          (if s.pool.stop then err m else ok (record s.pool { tasks = s.pool.tasks ++ ts }))
          (ok p)
      → Inv n s
      → Inv n (record s { pool = p; posted = s.posted ++ ts })
  accepted-Inv s ts m p h inv =
      let (open_pool, same) = accepted s.pool.stop m p _ h in
      subst (λ (x : ThreadPool T). Inv n (record s { pool = x; posted = s.posted ++ ts })) same
        (queued-Inv s ts open_pool inv)

  Step-Inv : {s t : System T} → Step s t → Inv n s → Inv n t
  unfolding post enqueue enqueue_range shut_down
  Step-Inv {s} (posting t {p} e) inv = accepted-Inv s (t ∷ []) _ p e inv
  Step-Inv {s} (enqueuing t {p} e) inv = accepted-Inv s (t ∷ []) _ p e inv
  Step-Inv {s} (enqueuing_range ts {p} e) inv = accepted-Inv s ts _ p e inv
  Step-Inv shutting_down inv = record {
    size = inv.size;
    in_order = inv.in_order;
    once = inv.once;
    counted = inv.counted;
    left = elim inv.left [ inl e ↦ inl e | inr (_, e) ↦ inr (refl, e) ];
  }
  Step-Inv (working w) inv = WorkerStep-Inv w inv

pub Reach-Inv : {T : Type 0} {n : ℕ} {s : System T} → Reach n s → Inv n s
Reach-Inv {n} start = new_system-Inv n
Reach-Inv (next r step) = Step-Inv step (Reach-Inv r)
