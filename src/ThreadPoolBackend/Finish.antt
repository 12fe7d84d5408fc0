-- ===== src/ThreadPoolBackend/Finish.antt =====
-- A parallel fan-in of include/pb/runtime/thread_pool_backend.hpp from any of its states to the end of
-- the wait for its tasks.
use pipeline_c.Prelude.{
  ℕ, ◌≡◌, refl, ap, ap₂, ◌∙◌, ◌==◌, if◌then◌else◌, none, some, List, [], ◌∷◌, length,
}
use pipeline_c.Error.{StageId}
use pipeline_c.Result.{ok}
use pipeline_c.Observer.{Sink, pure, ◌>>=◌}
use pipeline_c.Stage.{Value, Case}
use pipeline_c.Sequential.FanIn.{run_fan_in_case_stage}
use pipeline_c.ThreadPoolBackend.{
  CancellationToken, TaskGroup, group_result, wait, Task, ParallelRun, run_task,
}
use pipeline_c.ThreadPoolBackend.System.{
  System, scheduling, executing, Reach, next, Steps, here, later,
}
use pipeline_c.ThreadPoolBackend.Reached.{Reach-Inv}

wait_returns :
    (group : TaskGroup) → group.pending ≡ 0 → group.first_error ≡ none → wait group ≡ some (ok tt)
unfolding wait
wait_returns group h k = ap₂ (λ n e. if n == 0 then some (group_result e) else none) h k

module _ {S A : Type 0} (cancel : ℕ → CancellationToken) (branch_id : StageId)
    (input : Value A) where
  pub Reach-Steps :
      {cases : List (Case S A)} {sink : Sink} {s t : System S A}
      → Reach cancel branch_id input cases sink s
      → Steps cancel branch_id input s t
      → Reach cancel branch_id input cases sink t
  Reach-Steps r here = r
  Reach-Steps r (later steps step) = next (Reach-Steps r steps) step

  -- The state that the thread of the run comes to, if it schedules every case that is left.
  schedule_all :
      (rest : List (Case S A)) {s t : System S A}
      → t.unscheduled ≡ rest
      → Steps cancel branch_id input s t
      → (u : System S A) × Steps cancel branch_id input s u × (u.unscheduled ≡ [])
  schedule_all [] {s} {t} h steps = (t, steps, h)
  schedule_all (c ∷ rest) h steps = schedule_all rest refl (later steps (scheduling c rest h))

  run_task-posted :
      (task : Task S A) (run : ParallelRun S A) (t : Sink)
      → (run_task branch_id input task run t).0.posted ≡ run.posted
  unfolding run_task run_fan_in_case_stage ◌>>=◌ pure
  run_task-posted (i, c) run t = refl

  run_all :
      (tasks : List (Task S A)) {s t : System S A}
      → t.run.posted ≡ tasks
      → t.unscheduled ≡ []
      → Steps cancel branch_id input s t
      → (u : System S A) × Steps cancel branch_id input s u
        × (u.unscheduled ≡ [])
        × (u.run.posted ≡ [])
  run_all [] {s} {t} h over steps = (t, steps, over, h)
  run_all (task ∷ rest) {s} {t} h over steps =
      run_all rest (run_task-posted task (record t.run { posted = rest }) t.sink) over
        (later steps (executing [] rest task h))

  -- A fan-in on a pool that is not stopped, with an observer whose handlers return, never gets stuck:
  -- from every state that it comes to, by whatever steps, there are further steps that lead from that
  -- state to one where all cases are scheduled and the wait for the tasks returns, without an error.
  pub fan_in-finishes :
      (cases : List (Case S A)) (sink : Sink) {s : System S A}
      → Reach cancel branch_id input cases sink s
      → (t : System S A) × Steps cancel branch_id input s t
        × (t.unscheduled ≡ [])
        × (wait t.run.group ≡ some (ok tt))
  fan_in-finishes cases sink {s} r =
      let (t, some_steps, over) = schedule_all s.unscheduled {s = s} {t = s} refl here in
      let (u, steps, over', none_left) =
        run_all t.run.posted {s = s} {t = t} refl over some_steps in
      let inv = Reach-Inv cancel branch_id input cases (Reach-Steps r steps) in
      (u, steps, over', wait_returns u.run.group (inv.pending ∙ ap length none_left) inv.no_error)
