-- ===== src/ThreadPoolBackend/System.antt =====
-- A parallel fan-in of include/pb/runtime/thread_pool_backend.hpp among its threads: the thread of
-- the run schedules one case after the other, and the pool's workers run the tasks that are posted,
-- in any order and at any time.
use pipeline_c.Prelude.{ℕ, suc, ◌≡◌, false, List, [], ◌∷◌, ◌++◌, length}
use pipeline_c.Error.{StageId}
use pipeline_c.Observer.{on_fan_in_started, Sink, send}
use pipeline_c.Stage.{Value, Case}
use pipeline_c.Sequential.FanIn.{default_slots}
use pipeline_c.Sequential.Settling.{no_tally}
use pipeline_c.ThreadPoolBackend.{
  CancellationToken, new_group, Task, ParallelRun, schedule_case, run_task,
}

-- A state: how many cases have been scheduled, those that have not, and what is shared.
pub record System (S A : Type 0) : Type 0 where
  pub scheduled : ℕ
  pub unscheduled : List (Case S A)
  pub run : ParallelRun S A
  pub sink : Sink

module _ {S A : Type 0} where
  abbrev pub new_run : List (Case S A) → ParallelRun S A
  new_run cases = record {
    slots = default_slots 0 cases;
    tally = no_tally;
    group = new_group;
    posted = [];
  }

  abbrev pub new_system : StageId → List (Case S A) → Sink → System S A
  new_system branch_id cases sink = record {
    scheduled = 0;
    unscheduled = cases;
    run = new_run cases;
    sink = send (on_fan_in_started branch_id (length cases)) sink;
  }

  -- The token reads `cancel i` when case `i` is scheduled.
  pub data Step (cancel : ℕ → CancellationToken) (branch_id : StageId) (input : Value A)
      (s : System S A) : System S A → Type 0 where
    scheduling :
        (c : Case S A) (cases : List (Case S A))
        → s.unscheduled ≡ c ∷ cases
        → Step cancel branch_id input s (
            let after =
              schedule_case (cancel s.scheduled) false branch_id input s.scheduled c s.run s.sink in
            record {
              scheduled = suc s.scheduled;
              unscheduled = cases;
              run = after.0;
              sink = after.1;
            })
    executing :
        (front back : List (Task S A)) (task : Task S A)
        → s.run.posted ≡ front ++ task ∷ back
        → Step cancel branch_id input s (
            let after =
              run_task branch_id input task (record s.run { posted = front ++ back }) s.sink in
            record s { run = after.0; sink = after.1 })

  -- The states that a state can go on to.
  pub data Steps (cancel : ℕ → CancellationToken) (branch_id : StageId) (input : Value A)
      (s : System S A) : System S A → Type 0 where
    here : Steps cancel branch_id input s s
    later :
        {t u : System S A}
        → Steps cancel branch_id input s t
        → Step cancel branch_id input t u
        → Steps cancel branch_id input s u

  -- The states that a fan-in over `cases` can come to, on a pool that is not stopped.
  pub data Reach (cancel : ℕ → CancellationToken) (branch_id : StageId) (input : Value A)
      (cases : List (Case S A)) (sink : Sink) : System S A → Type 0 where
    start : Reach cancel branch_id input cases sink (new_system branch_id cases sink)
    next :
        {s t : System S A}
        → Reach cancel branch_id input cases sink s
        → Step cancel branch_id input s t
        → Reach cancel branch_id input cases sink t
