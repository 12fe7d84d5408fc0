-- ===== src/ThreadPoolBackend/Invariant.antt =====
-- What holds in every state of a parallel fan-in of include/pb/runtime/thread_pool_backend.hpp: which
-- tasks wait, which slots are filled, and what the tally and the task group count.
use native.Mathlib.Decide.{ℕ_discrete}
use pipeline_c.Prelude.{
  ℕ, suc, ◌+◌, ◌≤◌, ◌<◌, ◌≡◌, refl, ap, ap₂, ◌∙◌, sym, subst, Bool, true, false, not, ◌&&◌, none,
  some, List, [], ◌∷◌, ◌++◌, length, get_elem?, set, All, All-append, All-map, length-set,
  length-append, get_elem?-append, append_assoc, if◌then◌else◌, arith,
}
use pipeline_c.Error.{StageId, Error}
use pipeline_c.Result.{Result, ok, err}
use pipeline_c.Observer.{Sink}
use pipeline_c.Stage.{FanInCaseResult, Value, Case}
use pipeline_c.Sequential.Settling.{default_slot, mark_failed}
use pipeline_c.Sequential.Slots.{is_picked}
use pipeline_c.ThreadPoolBackend.{
  CancellationToken, stop_requested, add, Task, ParallelRun, slot_at,
}
use pipeline_c.ThreadPoolBackend.System.{System}
use pipeline_c.ThreadPoolBackend.Slots.{
  slot_at-some, case_sum-snoc, scheduled_run, is_error, predicate_verdict, parallel_slot,
  parallel_slot_of, selected_sum, refused_sum, case_sum,
}
use pipeline_c.ThreadPoolBackend.Filling.{
  waiting_tasks, waiting_tasks-eq-zero, waiting_tasks-snoc, SlotsOk, blank_here, keep_slot,
  fail_slot, post_slot,
}

module _ {S A : Type 0} (cancel : ℕ → CancellationToken) (branch_id : StageId) (input : Value A)
    (cases : List (Case S A)) where
  -- A posted task is a case whose predicate holds and that was not cancelled.
  abbrev pub TaskOk : ℕ → Task S A → Type 0
  TaskOk n t =
      (get_elem? cases t.0 ≡ some t.1)
      × (t.0 < n)
      × (predicate_verdict cancel branch_id input t.0 t.1 ≡ ok true)
      × (stop_requested (cancel t.0) ≡ false)

  pub record Inv (s : System S A) : Type 0 where
    pub done : List (Case S A)
    pub split : cases ≡ done ++ s.unscheduled
    pub counted : length done ≡ s.scheduled
    pub tasks : All (TaskOk s.scheduled) s.run.posted
    pub once : (j : ℕ) → waiting_tasks j s.run.posted ≤ 1
    pub slots_ok : SlotsOk cancel branch_id input cases s.scheduled s.run.posted s.run.slots
    pub size : length s.run.slots ≡ length cases
    pub pending : s.run.group.pending ≡ length s.run.posted
    pub no_error : s.run.group.first_error ≡ none
    pub selected : s.run.tally.selected_count ≡ selected_sum cancel branch_id input 0 done
    pub refused : s.run.tally.failed_count ≡ refused_sum cancel branch_id input 0 done
    pub completed : s.run.tally.completed_count ≡ 0

  module _ (s : System S A) (c : Case S A) (rest : List (Case S A))
      (full : s.unscheduled ≡ c ∷ rest) (inv : Inv s) where
    scheduled_split : cases ≡ (inv.done ++ c ∷ []) ++ rest
    scheduled_split =
        inv.split ∙ ap (λ x. inv.done ++ x) full ∙ sym (append_assoc inv.done (c ∷ []) rest)

    scheduled_counted : length (inv.done ++ c ∷ []) ≡ suc s.scheduled
    scheduled_counted = omega (arith, length-append inv.done (c ∷ []), inv.counted)

    scheduled_here : get_elem? cases s.scheduled ≡ some c
    scheduled_here =
        ap₂ get_elem? (inv.split ∙ ap (λ x. inv.done ++ x) full) (sym inv.counted)
        ∙ get_elem?-append inv.done c rest

    later_tasks : All (TaskOk (suc s.scheduled)) s.run.posted
    later_tasks = All-map (λ t h. (h.0, omega (arith, h.1), h.2, h.3)) s.run.posted inv.tasks

    fresh : waiting_tasks s.scheduled s.run.posted ≡ 0
    fresh =
        waiting_tasks-eq-zero s.scheduled s.run.posted (All-map (λ t h. h.1) s.run.posted inv.tasks)

    next_sum :
        (f : ℕ → Case S A → ℕ)
        → case_sum f 0 (inv.done ++ c ∷ []) ≡ case_sum f 0 inv.done + f s.scheduled c
    next_sum f =
        let e : 0 + length inv.done ≡ s.scheduled = omega (arith, inv.counted) in
        case_sum-snoc f 0 inv.done c ∙ ap (λ k. case_sum f 0 inv.done + f k c) e

    module _ (sink : Sink) (b : Bool) (r : Result Bool Error)
        (eb : stop_requested (cancel s.scheduled) ≡ b)
        (er : predicate_verdict cancel branch_id input s.scheduled c ≡ r) where
      selected_next :
          selected_sum cancel branch_id input 0 (inv.done ++ c ∷ [])
          ≡ selected_sum cancel branch_id input 0 inv.done + (if is_picked r && not b then 1 else 0)
      selected_next =
          next_sum _
          ∙ ap₂
              (λ x y.
                selected_sum cancel branch_id input 0 inv.done
                + (if is_picked x && not y then 1 else 0))
              er eb

      refused_next :
          refused_sum cancel branch_id input 0 (inv.done ++ c ∷ [])
          ≡ refused_sum cancel branch_id input 0 inv.done + (if is_error r then 1 else 0)
      refused_next =
          next_sum _
          ∙ ap (λ x. refused_sum cancel branch_id input 0 inv.done + (if is_error x then 1 else 0))
              er

      slot_next :
          parallel_slot cancel branch_id input s.scheduled c
          ≡ parallel_slot_of cancel branch_id input b s.scheduled c r
      slot_next = ap₂ (λ x y. parallel_slot_of cancel branch_id input x s.scheduled c y) eb er

      abbrev after : ParallelRun S A → System S A
      after run = record { scheduled = suc s.scheduled; unscheduled = rest; run = run; sink = sink }

      -- A case that is not posted.
      unposted-Inv :
          (slots : List (FanInCaseResult A)) (failed_count : ℕ)
          → (is_picked r && not b) ≡ false
          → length slots ≡ length s.run.slots
          → SlotsOk cancel branch_id input cases (suc s.scheduled) s.run.posted slots
          → failed_count ≡ s.run.tally.failed_count + (if is_error r then 1 else 0)
          → Inv (
              after (record s.run {
                slots = slots;
                tally = record s.run.tally { failed_count = failed_count };
              }))
      unposted-Inv slots failed_count idle same good count = record {
        done = inv.done ++ c ∷ [];
        split = scheduled_split;
        counted = scheduled_counted;
        tasks = later_tasks;
        once = inv.once;
        slots_ok = good;
        size = same ∙ inv.size;
        pending = inv.pending;
        no_error = inv.no_error;
        selected = ground (arith, inv.selected, selected_next);
        refused = count ∙ omega (arith, inv.refused, refused_next);
        completed = inv.completed;
      }

      good_blank :
          parallel_slot_of cancel branch_id input b s.scheduled c r ≡ default_slot s.scheduled
          → SlotsOk cancel branch_id input cases (suc s.scheduled) s.run.posted s.run.slots
      good_blank h =
          keep_slot cancel branch_id input cases s.scheduled c s.run.posted s.run.slots
            scheduled_here inv.slots_ok fresh (slot_next ∙ h)

      -- A case that is posted.
      posted-Inv :
          (is_picked r && not b) ≡ true
          → is_error r ≡ false
          → r ≡ ok true
          → b ≡ false
          → Inv (
              after (record s.run {
                tally = record s.run.tally { selected_count = s.run.tally.selected_count + 1 };
                group = add s.run.group;
                posted = s.run.posted ++ (s.scheduled, c) ∷ [];
              }))
      unfolding add
      posted-Inv picks fine holds live = record {
        done = inv.done ++ c ∷ [];
        split = scheduled_split;
        counted = scheduled_counted;
        tasks =
            All-append (TaskOk (suc s.scheduled)) s.run.posted ((s.scheduled, c) ∷ []) later_tasks
              ((scheduled_here, omega arith, er ∙ holds, eb ∙ live), tt);
        once = λ j. elim (ℕ_discrete s.scheduled j) [
          | yes e ↦ ground (
            arith,
            waiting_tasks-snoc s.scheduled j c s.run.posted,
            fresh,
            ap (λ k. waiting_tasks k s.run.posted) e,
          )
          | no ne ↦ ground (arith, waiting_tasks-snoc s.scheduled j c s.run.posted, inv.once j)
        ];
        slots_ok =
            post_slot cancel branch_id input cases s.scheduled c s.run.posted s.run.slots
              scheduled_here inv.slots_ok fresh;
        size = inv.size;
        pending = omega (arith, inv.pending, length-append s.run.posted ((s.scheduled, c) ∷ []));
        no_error = inv.no_error;
        selected = ground (arith, inv.selected, selected_next);
        refused = ground (arith, inv.refused, refused_next);
        completed = inv.completed;
      }

    failed_slot :
        (e : Error)
        → predicate_verdict cancel branch_id input s.scheduled c ≡ err e
        → mark_failed e.message (slot_at s.run.slots s.scheduled)
          ≡ parallel_slot cancel branch_id input s.scheduled c
    unfolding mark_failed
    failed_slot e er =
        ap (mark_failed e.message) (
          slot_at-some s.run.slots s.scheduled _ (
            blank_here cancel branch_id input cases s.scheduled c s.run.posted s.run.slots
              scheduled_here inv.slots_ok fresh))
        ∙ sym (
            ap
              (parallel_slot_of cancel branch_id input (stop_requested (cancel s.scheduled))
                s.scheduled c)
              er)

    pub scheduled-Inv :
        (sink : Sink) (b : Bool) (r : Result Bool Error)
        → stop_requested (cancel s.scheduled) ≡ b
        → predicate_verdict cancel branch_id input s.scheduled c ≡ r
        → Inv (record {
          scheduled = suc s.scheduled;
          unscheduled = rest;
          run = scheduled_run b s.scheduled c s.run r;
          sink = sink;
        })
    scheduled-Inv sink true (ok true) eb er =
        unposted-Inv sink true (ok true) eb er s.run.slots s.run.tally.failed_count refl refl
          (good_blank sink true (ok true) eb er refl) (omega arith)
    scheduled-Inv sink false (ok true) eb er =
        posted-Inv sink false (ok true) eb er refl refl refl refl
    scheduled-Inv sink b (ok false) eb er =
        unposted-Inv sink b (ok false) eb er s.run.slots s.run.tally.failed_count refl refl
          (good_blank sink b (ok false) eb er refl) (omega arith)
    scheduled-Inv sink b (err e) eb er =
        let slots =
          set s.run.slots s.scheduled (mark_failed e.message (slot_at s.run.slots s.scheduled)) in
        unposted-Inv sink b (err e) eb er slots (s.run.tally.failed_count + 1) refl
          (length-set s.run.slots s.scheduled _)
          (subst
            (λ x.
              SlotsOk cancel branch_id input cases (suc s.scheduled) s.run.posted
                (set s.run.slots s.scheduled x))
            (sym (failed_slot e er))
            (fail_slot cancel branch_id input cases s.scheduled c s.run.posted s.run.slots
              scheduled_here inv.slots_ok fresh))
          (omega arith)
