-- ===== src/ThreadPoolBackend/Reached.antt =====
-- Every state that a parallel fan-in of include/pb/runtime/thread_pool_backend.hpp can come to keeps
-- the invariant.

use pipeline_c.Prelude.{
  ℕ, zero, suc, ◌+◌, ◌≤◌, ◌≡◌, refl, ap, ap₂, ◌∙◌, sym, subst, false, some, List, [], ◌∷◌, ◌++◌,
  length, get_elem?, set, All, All-middle, length-set, length-append, arith,
}
use pipeline_c.Error.{StageId}
use pipeline_c.Result.{ok}
use pipeline_c.Observer.{Sink}
use pipeline_c.Stage.{Value, Case}
use pipeline_c.Sequential.FanIn.{default_slots}
use pipeline_c.Sequential.Settling.{default_slot}
use pipeline_c.ThreadPoolBackend.{
  CancellationToken, finish_group, keep_first, Task, ParallelRun, schedule_case, run_task,
}
use pipeline_c.ThreadPoolBackend.System.{
  System, Step, scheduling, executing, Reach, start, next, new_system,
}
use pipeline_c.ThreadPoolBackend.Slots.{
  slot_at-some, parallel_slot, parallel_slot_of, schedule_case-run, stage_slot, run_task-run,
}
use pipeline_c.ThreadPoolBackend.Filling.{
  waiting_tasks, waiting_tasks-middle, SlotsOk, blank_task, run_slot,
}
use pipeline_c.ThreadPoolBackend.Invariant.{TaskOk, Inv, scheduled-Inv}

module _ {S A : Type 0} (cancel : ℕ → CancellationToken) (branch_id : StageId) (input : Value A)
    (cases : List (Case S A)) where
  module _ (s : System S A) (front back : List (Task S A)) (i : ℕ) (c : Case S A)
      (full : s.run.posted ≡ front ++ (i, c) ∷ back)
      (inv : Inv cancel branch_id input cases s) where
    task_ok :
        TaskOk cancel branch_id input cases s.scheduled (i, c)
        × All (TaskOk cancel branch_id input cases s.scheduled) (front ++ back)
    task_ok =
        All-middle (TaskOk cancel branch_id input cases s.scheduled) front (i, c) back
          (subst (All (TaskOk cancel branch_id input cases s.scheduled)) full inv.tasks)

    full_ok : SlotsOk cancel branch_id input cases s.scheduled (front ++ (i, c) ∷ back) s.run.slots
    full_ok =
        subst (λ x. SlotsOk cancel branch_id input cases s.scheduled x s.run.slots) full
          inv.slots_ok

    full_once : (j : ℕ) → waiting_tasks j (front ++ (i, c) ∷ back) ≤ 1
    full_once j = subst (λ x. waiting_tasks j x ≤ 1) full (inv.once j)

    slot_task : stage_slot cancel branch_id input i c ≡ parallel_slot cancel branch_id input i c
    slot_task =
        sym (ap₂ (λ x y. parallel_slot_of cancel branch_id input x i c y) task_ok.0.3 task_ok.0.2)

    executed-Inv :
        (sink : Sink)
        → Inv cancel branch_id input cases (record s {
          run = record s.run {
            slots = set s.run.slots i (stage_slot cancel branch_id input i c);
            group = finish_group (ok tt) s.run.group;
            posted = front ++ back;
          };
          sink = sink;
        })
    unfolding finish_group
    executed-Inv sink = record {
      done = inv.done;
      split = inv.split;
      counted = inv.counted;
      tasks = task_ok.1;
      once = λ j. ground (arith, full_once j, waiting_tasks-middle i j c front back);
      slots_ok =
          subst
            (λ x.
              SlotsOk cancel branch_id input cases s.scheduled (front ++ back)
                (set s.run.slots i x))
            (sym slot_task)
            (run_slot cancel branch_id input cases i s.scheduled c front back s.run.slots
              task_ok.0.0 task_ok.0.1 full_ok (full_once i));
      size = length-set s.run.slots i _ ∙ inv.size;
      pending = ground (
        arith,
        inv.pending,
        ap length full,
        length-append front ((i, c) ∷ back),
        length-append front back,
      );
      no_error = ap (λ e. keep_first e (ok tt)) inv.no_error;
      selected = inv.selected;
      refused = inv.refused;
      completed = inv.completed;
    }

  Step-Inv :
      {s t : System S A}
      → Step cancel branch_id input s t
      → Inv cancel branch_id input cases s
      → Inv cancel branch_id input cases t
  Step-Inv {s} (scheduling c rest full) inv =
      let after =
        schedule_case (cancel s.scheduled) false branch_id input s.scheduled c s.run s.sink in
      subst
        (λ x.
          Inv cancel branch_id input cases
            (record { scheduled = suc s.scheduled; unscheduled = rest; run = x; sink = after.1 }))
        (sym (
          schedule_case-run cancel branch_id input (cancel s.scheduled) s.scheduled c s.run s.sink))
        (scheduled-Inv cancel branch_id input cases s c rest full inv after.1 _ _ refl refl)
  Step-Inv {s} (executing front back (i, c) full) inv =
      let run : ParallelRun S A = record s.run { posted = front ++ back } in
      let after = run_task branch_id input (i, c) run s.sink in
      let blank = slot_at-some s.run.slots i _ (
        blank_task cancel branch_id input cases i s.scheduled c front back s.run.slots
          (task_ok s front back i c full inv).0.0 (task_ok s front back i c full inv).0.1
          (full_ok s front back i c full inv) (full_once s front back i c full inv i)) in
      subst (λ x. Inv cancel branch_id input cases (record s { run = x; sink = after.1 }))
        (sym (run_task-run cancel branch_id input i c run s.sink blank))
        (executed-Inv s front back i c full inv after.1)

  new_slots :
      (i : ℕ) (cs : List (Case S A)) (j : ℕ) (c : Case S A)
      → get_elem? cs j ≡ some c
      → get_elem? (default_slots i cs) j ≡ some (default_slot (i + j))
  new_slots i [] j c h = cc
  new_slots i (x ∷ cs) zero c h = ap (λ k. some (default_slot {A = A} k)) (omega arith)
  new_slots i (x ∷ cs) (suc j) c h =
      new_slots (suc i) cs j c h ∙ ap (λ k. some (default_slot k)) (omega arith)

  length-default_slots :
      (i : ℕ) (cs : List (Case S A)) → length (default_slots {A = A} i cs) ≡ length cs
  length-default_slots i [] = refl
  length-default_slots i (c ∷ cs) = omega (arith, length-default_slots (suc i) cs)

  new_system-Inv :
      (sink : Sink) → Inv cancel branch_id input cases (new_system branch_id cases sink)
  new_system-Inv sink = record {
    done = [];
    split = refl;
    counted = refl;
    tasks = tt;
    once = λ j. omega arith;
    slots_ok = record {
      filled = λ j c at below free. absurd (omega arith);
      blank = λ j c at h. new_slots 0 cases j c at ∙ ap (λ k. some (default_slot k)) (omega arith);
    };
    size = length-default_slots 0 cases;
    pending = refl;
    no_error = refl;
    selected = refl;
    refused = refl;
    completed = refl;
  }

  pub Reach-Inv :
      {sink : Sink} {s : System S A}
      → Reach cancel branch_id input cases sink s
      → Inv cancel branch_id input cases s
  Reach-Inv {sink} start = new_system-Inv sink
  Reach-Inv (next r step) = Step-Inv step (Reach-Inv r)
