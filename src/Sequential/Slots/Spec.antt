-- ===== src/Sequential/Slots/Spec.antt =====
-- What a whole fan-in leaves in its slots and tells in its last event.
use pipeline_c.Prelude.{
  ℕ, suc, ◌+◌, ◌≡◌, refl, ap, ap₂, ◌∙◌, ◌++◌, subst, sym, count_if, List, [], ◌∷◌, length, codes,
  arith,
}
use pipeline_c.Error.{StageId}
use pipeline_c.Result.{ok}
use pipeline_c.Observer.Emits.{deliver, deliver-append, send-eq-deliver}
use pipeline_c.Sequential.Balanced.FanIns.{run_fan_in_cases-Moving}
use pipeline_c.Observer.{
  Event, on_fan_in_started, on_fan_in_completed, send, Sink, pure, ◌>>=◌, notify, Run,
}
use pipeline_c.Stage.{Value, results, Case, BranchNode, StageStoragePolicy}
use pipeline_c.Sequential.Calls.{mark_branch_error}
use pipeline_c.Sequential.FanIn.{
  CaseRun, FanInRun, run_fan_in_case, continue_cases, run_fan_in_cases, run_fan_in_branch_impl,
  run_fan_in_branch, aggregate_result,
}
use pipeline_c.Sequential.Settling.{default_slot, is_failed, is_completed, Tally, no_tally}
use pipeline_c.Sequential.Slots.{
  case_slot, case_slots, case_picked, picked_count, CaseFacts, run_fan_in_case-facts,
}

module _ {S A : Type 0} (policy : StageStoragePolicy) (branch_id : StageId) (input : Value A) where
  -- What a run over some cases leaves, from the number of the first.
  pub record CasesFacts (i : ℕ) (cases : List (Case S A)) (tally : Tally) (run : FanInRun S A)
      : Type 0 where
    pub never_fails : run.outcome ≡ ok tt
    pub own_slots : run.slots ≡ case_slots policy branch_id input i cases
    pub selected :
        run.tally.selected_count
        ≡ tally.selected_count + picked_count policy branch_id input i cases
    pub completed :
        run.tally.completed_count
        ≡ tally.completed_count + count_if is_completed (case_slots policy branch_id input i cases)
    pub failed :
        run.tally.failed_count
        ≡ tally.failed_count + count_if is_failed (case_slots policy branch_id input i cases)

  continue_cases-facts :
      (i : ℕ) (c : Case S A) (others : List (Case S A)) (tally : Tally) (one : CaseRun S A)
      (next : Run (FanInRun S A))
      → CaseFacts policy branch_id input i
          (case_picked policy branch_id input i c)
          (case_slot policy branch_id input i c)
          tally
          one
      → ((s : Sink) → CasesFacts (suc i) others one.tally (next s).0)
      → (s : Sink)
      → CasesFacts i (c ∷ others) tally (continue_cases i others one next one.outcome s).0
  unfolding continue_cases ◌>>=◌ pure
  continue_cases-facts i c others tally one next f h s =
      subst (λ o. CasesFacts i (c ∷ others) tally (continue_cases i others one next o s).0)
        (sym f.never_fails)
        (record {
          never_fails = (h s).never_fails;
          own_slots = ap₂ ◌∷◌ f.own_slot (h s).own_slots;
          selected = omega (arith, (h s).selected, f.counts.by_selected);
          completed = omega (arith, (h s).completed, f.counts.by_completed);
          failed = omega (arith, (h s).failed, f.counts.by_failed);
        })

  run_fan_in_cases-facts :
      (i : ℕ) (cases : List (Case S A)) (tally : Tally) (s : Sink)
      → CasesFacts i cases tally (run_fan_in_cases policy branch_id input i cases tally s).0
  unfolding run_fan_in_cases ◌>>=◌ pure
  run_fan_in_cases-facts i [] tally s = record {
    never_fails = refl;
    own_slots = refl;
    selected = omega arith;
    completed = omega arith;
    failed = omega arith;
  }
  run_fan_in_cases-facts i (c ∷ cases) tally s =
      let one = run_fan_in_case policy branch_id input i c (default_slot i) tally s in
      continue_cases-facts i c cases tally one.0 _
        (run_fan_in_case-facts policy branch_id input i c tally s)
        (run_fan_in_cases-facts (suc i) cases one.0.tally) one.1

  -- A fan-in never fails, whatever its predicates and stages report or throw: its value is the
  -- list of slots, the slot of each case being what the case alone makes of the input.
  pub run_fan_in_branch-slots :
      (b : BranchNode S A) (s : Sink)
      → (run_fan_in_branch policy branch_id b input s).0.0
        ≡ ok (results (case_slots policy branch_id input 0 b.cases))
  unfolding run_fan_in_branch run_fan_in_branch_impl mark_branch_error notify ◌>>=◌ pure
  run_fan_in_branch-slots b s =
      let f =
        run_fan_in_cases-facts 0 b.cases no_tally
          (send (on_fan_in_started branch_id (length b.cases)) s) in
      ap₂ (λ o slots. mark_branch_error (codes "fan_in") (aggregate_result {A = A} slots o))
        f.never_fails f.own_slots

  -- The last event of a fan-in tells how many cases its predicates selected, and how many slots are
  -- completed and failed, the failures of predicates among them.
  pub run_fan_in_branch-tally :
      (b : BranchNode S A) (s : Sink)
      → (events : List Event) × ((run_fan_in_branch policy branch_id b input s).1
          ≡ deliver
              (events
                ++ on_fan_in_completed branch_id
                    (picked_count policy branch_id input 0 b.cases)
                    (count_if is_completed (case_slots policy branch_id input 0 b.cases))
                    (count_if is_failed (case_slots policy branch_id input 0 b.cases))
                  ∷ [])
              s)
  unfolding run_fan_in_branch run_fan_in_branch_impl ◌>>=◌ pure notify
  run_fan_in_branch-tally b s =
      let start = on_fan_in_started branch_id (length b.cases) in
      let em = (run_fan_in_cases-Moving [] policy branch_id input 0 b.cases no_tally).emits in
      let run = run_fan_in_cases policy branch_id input 0 b.cases no_tally (send start s) in
      let f = run_fan_in_cases-facts 0 b.cases no_tally (send start s) in
      let picked = picked_count policy branch_id input 0 b.cases in
      let done = count_if is_completed (case_slots policy branch_id input 0 b.cases) in
      let lost = count_if is_failed (case_slots policy branch_id input 0 b.cases) in
      let e1 : run.0.tally.selected_count ≡ picked = omega (arith, f.selected) in
      let e2 : run.0.tally.completed_count ≡ done = omega (arith, f.completed) in
      let e3 : run.0.tally.failed_count ≡ lost = omega (arith, f.failed) in
      let last = on_fan_in_completed branch_id picked done lost in
      (
        start ∷ em.events,
        (λ k. send (on_fan_in_completed branch_id (e1 k) (e2 k) (e3 k)) run.1)
            ∙ ap (send last) (ap (λ r. r.1) (em.runs (send start s)))
            ∙ send-eq-deliver last _
            ∙ ap (λ t. deliver (last ∷ []) (deliver em.events t)) (send-eq-deliver start s)
            ∙ ap (deliver (last ∷ [])) (deliver-append (start ∷ []) em.events s)
            ∙ deliver-append (start ∷ em.events) (last ∷ []) s,
      )
