-- ===== src/ThreadPoolBackend/Agree.antt =====
-- What a parallel fan-in of include/pb/runtime/thread_pool_backend.hpp comes to, whatever the order of
-- its tasks, beside the sequential one of include/pb/runtime/sequential.hpp.
use pipeline_c.Prelude.{
  ℕ, suc, ◌+◌, ◌≤◌, ◌≡◌, refl, ap, ap₂, ◌∙◌, sym, Bool, true, false, not, ◌&&◌, Option, none, some,
  some-injective, List, [], ◌∷◌, ◌++◌, length, get_elem?, get_elem?_lt, append-nil, count_if,
  if◌then◌else◌, ◌==◌, ==_iff, arith,
}
use pipeline_c.Error.{StageId, Error}
use pipeline_c.Result.{Result, ok, err}
use pipeline_c.Observer.{Event, Sink, on_fan_in_completed, send, notify, pure, ◌>>=◌}
use pipeline_c.Stage.{FanInCaseResult, Value, results, Case, BranchNode, construct_stages_per_run}
use pipeline_c.Sequential.FanIn.{run_fan_in_branch, aggregate_result}
use pipeline_c.Sequential.Settling.{Tally, is_failed, is_completed}
use pipeline_c.Sequential.Slots.{case_slots, fill, decided_slot, is_picked}
use pipeline_c.Sequential.Slots.Spec.{run_fan_in_branch-slots}
use pipeline_c.ThreadPoolBackend.{
  CancellationToken, stop_requested, TaskGroup, group_result, wait, tally_fan_in_completions,
  final_tally, conclude_fan_in,
}
use pipeline_c.ThreadPoolBackend.System.{System, Reach}
use pipeline_c.ThreadPoolBackend.Slots.{
  is_error, predicate_verdict, parallel_slot, parallel_slot_of, parallel_slots, selected_sum,
  refused_sum,
}
use pipeline_c.ThreadPoolBackend.Filling.{waiting_tasks}
use pipeline_c.ThreadPoolBackend.Invariant.{Inv}
use pipeline_c.ThreadPoolBackend.Reached.{Reach-Inv}

nil_of_length : {A : Type 0} (xs : List A) → length xs ≡ 0 → xs ≡ []
nil_of_length [] h = refl
nil_of_length (x ∷ xs) h = absurd (omega (arith, h))

passed_wait :
    (b : Bool) (x r : Result Unit Error)
    → ◌≡◌ {A = Option (Result Unit Error)} (if b then some x else none) (some r)
    → (b ≡ true) × (x ≡ r)
passed_wait true x r h = (refl, some-injective _ _ h)
passed_wait false x r h = cc

wait-idle :
    (group : TaskGroup) (r : Result Unit Error)
    → group.first_error ≡ none
    → wait group ≡ some r
    → (group.pending ≡ 0) × (r ≡ ok tt)
unfolding wait
wait-idle group r h k =
    let (idle, same) = passed_wait (group.pending == 0) (group_result group.first_error) r k in
    ((==_iff group.pending 0).0 idle, sym same ∙ ap group_result h)

fill-counted :
    {A : Type 0} (i : ℕ) (r : Result A Error)
    → (1 ≡ (if is_completed (fill i r) then 1 else 0) + (if is_failed (fill i r) then 1 else 0))
      × ((if is_completed (fill i r) then 1 else 0) ≤ 1)
unfolding is_completed is_failed
fill-counted i (ok v) = (refl, omega arith)
fill-counted i (err e) = (refl, omega arith)

count_one :
    (b : Bool) (tally : Tally)
    → let t = (if b then record tally { completed_count = tally.completed_count + 1 } else tally) in
      (t.selected_count ≡ tally.selected_count)
      × (t.failed_count ≡ tally.failed_count)
      × (t.completed_count ≡ tally.completed_count + (if b then 1 else 0))
count_one true tally = (refl, refl, refl)
count_one false tally = (refl, refl, omega arith)

tally_fan_in_completions-lem :
    {A : Type 0} (slots : List (FanInCaseResult A)) (tally : Tally)
    → ((tally_fan_in_completions slots tally).selected_count ≡ tally.selected_count)
      × ((tally_fan_in_completions slots tally).failed_count ≡ tally.failed_count)
      × ((tally_fan_in_completions slots tally).completed_count
          ≡ tally.completed_count + count_if is_completed slots)
unfolding tally_fan_in_completions
tally_fan_in_completions-lem [] tally = (refl, refl, omega arith)
tally_fan_in_completions-lem (slot ∷ slots) tally =
    let b = is_completed slot in
    let one = record tally { completed_count = tally.completed_count + 1 } in
    let (s, f, c) = tally_fan_in_completions-lem slots (if b then one else tally) in
    let (s', f', c') = count_one b tally in (s ∙ s', f ∙ f', omega (arith, c, c'))

completed_event :
    (branch_id : StageId) (s : Sink) {a a' b b' c c' : ℕ}
    → a ≡ a'
    → b ≡ b'
    → c ≡ c'
    → send (on_fan_in_completed branch_id a b c) s ≡ send (on_fan_in_completed branch_id a' b' c') s
completed_event branch_id s h k l =
    ap₂ (λ (e : ℕ → Event) n. send (e n) s) (ap₂ (λ m n k. on_fan_in_completed branch_id m n k) h k)
      l

module _ {S A : Type 0} (cancel : ℕ → CancellationToken) (branch_id : StageId)
    (input : Value A) where
  -- Slots that show the parallel slot of each case are the parallel slots.
  all_slots :
      (i : ℕ) (cases : List (Case S A)) (slots : List (FanInCaseResult A))
      → length slots ≡ length cases
      → ((j : ℕ) (c : Case S A)
          → get_elem? cases j ≡ some c
          → get_elem? slots j ≡ some (parallel_slot cancel branch_id input (i + j) c))
      → slots ≡ parallel_slots cancel branch_id input i cases
  all_slots i [] [] n h = refl
  all_slots i [] (x ∷ slots) n h = absurd (omega (arith, n))
  all_slots i (c ∷ cases) [] n h = absurd (omega (arith, n))
  all_slots i (c ∷ cases) (x ∷ slots) n h =
      ap₂ ◌∷◌
        (some-injective _ _ (h 0 c refl)
          ∙ ap (λ k. parallel_slot cancel branch_id input k c) (omega arith))
        (all_slots (suc i) cases slots (omega (arith, n)) (λ j d at.
          h (suc j) d at ∙ ap (λ k. some (parallel_slot cancel branch_id input k d)) (omega arith)))

  -- What one case adds to the counts: a case that runs, or whose predicate failed, has a slot that is
  -- completed or failed.
  counted_of :
      (b : Bool) (i : ℕ) (c : Case S A) (r : Result Bool Error)
      → ((if is_picked r && not b then 1 else 0) + (if is_error r then 1 else 0)
          ≡ (if is_completed (parallel_slot_of cancel branch_id input b i c r) then 1 else 0)
            + (if is_failed (parallel_slot_of cancel branch_id input b i c r) then 1 else 0))
        × ((if is_completed (parallel_slot_of cancel branch_id input b i c r) then 1 else 0)
            ≤ (if is_picked r && not b then 1 else 0))
  unfolding is_completed is_failed
  counted_of b i c (err e) = (refl, omega arith)
  counted_of b i c (ok false) = (refl, omega arith)
  counted_of true i c (ok true) = (refl, omega arith)
  counted_of false i c (ok true) = fill-counted i _

  counted_sum :
      (i : ℕ) (cases : List (Case S A))
      → (selected_sum cancel branch_id input i cases + refused_sum cancel branch_id input i cases
          ≡ count_if is_completed (parallel_slots cancel branch_id input i cases)
            + count_if is_failed (parallel_slots cancel branch_id input i cases))
        × (count_if is_completed (parallel_slots cancel branch_id input i cases)
            ≤ selected_sum cancel branch_id input i cases)
  counted_sum i [] = (refl, omega arith)
  counted_sum i (c ∷ cases) =
      let (whole, part) = counted_sum (suc i) cases in
      let (one, few) =
        counted_of (stop_requested (cancel i)) i c (predicate_verdict cancel branch_id input i c) in
      (omega (arith, whole, one), omega (arith, part, few))

  -- Without a stop request a slot is that of the sequential fan-in.
  live_slot :
      (i : ℕ) (c : Case S A) (r : Result Bool Error)
      → parallel_slot_of cancel branch_id input false i c r
        ≡ decided_slot construct_stages_per_run branch_id input i c r
  live_slot i c (err e) = refl
  live_slot i c (ok true) = refl
  live_slot i c (ok false) = refl

  live_slots :
      ((i : ℕ) → stop_requested (cancel i) ≡ false)
      → (i : ℕ) (cases : List (Case S A))
      → parallel_slots cancel branch_id input i cases
        ≡ case_slots construct_stages_per_run branch_id input i cases
  live_slots live i [] = refl
  live_slots live i (c ∷ cases) =
      let r = predicate_verdict cancel branch_id input i c in
      ap₂ ◌∷◌ (ap (λ b. parallel_slot_of cancel branch_id input b i c r) (live i) ∙ live_slot i c r)
        (live_slots live (suc i) cases)

  module _ (cases : List (Case S A)) (sink : Sink) {s : System S A}
      (reach : Reach cancel branch_id input cases sink s) (over : s.unscheduled ≡ []) where
    abbrev inv : Inv cancel branch_id input cases s
    inv = Reach-Inv cancel branch_id input cases reach

    done_all : cases ≡ inv.done
    done_all = inv.split ∙ ap (λ x. inv.done ++ x) over ∙ append-nil inv.done

    waited-slots :
        s.run.group.pending ≡ 0 → s.run.slots ≡ parallel_slots cancel branch_id input 0 cases
    waited-slots h =
        let none_left = nil_of_length s.run.posted (omega (arith, inv.pending, h)) in
        all_slots 0 cases s.run.slots inv.size (λ j c at.
          inv.slots_ok.filled j c at
            (omega (arith, get_elem?_lt cases j c at, ap length done_all, inv.counted))
            (ap (waiting_tasks j) none_left)
          ∙ ap (λ k. some (parallel_slot cancel branch_id input k c)) (omega arith))

    -- When the wait for the tasks of a fan-in returns, every case is done: in whatever order the tasks
    -- were run, the fan-in gives one slot for each case, which the case, the input and the token alone
    -- determine, and the event that it then sends tells how many cases were selected and how many slots
    -- are completed and failed.
    pub fan_in-outcome :
        (r : Result Unit Error)
        → wait s.run.group ≡ some r
        → ((conclude_fan_in branch_id s.run r s.sink).0
            ≡ ok (results (parallel_slots cancel branch_id input 0 cases)))
          × ((final_tally s.run.slots s.run.tally).selected_count
              ≡ selected_sum cancel branch_id input 0 cases)
          × ((final_tally s.run.slots s.run.tally).completed_count
              ≡ count_if is_completed (parallel_slots cancel branch_id input 0 cases))
          × ((final_tally s.run.slots s.run.tally).failed_count
              ≡ count_if is_failed (parallel_slots cancel branch_id input 0 cases))
          × ((conclude_fan_in branch_id s.run r s.sink).1
              ≡ send
                  (on_fan_in_completed branch_id
                    (selected_sum cancel branch_id input 0 cases)
                    (count_if is_completed (parallel_slots cancel branch_id input 0 cases))
                    (count_if is_failed (parallel_slots cancel branch_id input 0 cases)))
                  s.sink)
    unfolding conclude_fan_in final_tally notify ◌>>=◌ pure
    fan_in-outcome r h =
        let (idle, fine) = wait-idle s.run.group r inv.no_error h in
        let slots = waited-slots idle in
        let (a, b, c) = tally_fan_in_completions-lem s.run.slots s.run.tally in
        let (whole, part) = counted_sum 0 cases in
        let picked = ap (selected_sum cancel branch_id input 0) done_all in
        let lost = ap (refused_sum cancel branch_id input 0) done_all in
        let full = ap (count_if is_completed) slots in
        let tally = final_tally s.run.slots s.run.tally in
        let expected = parallel_slots cancel branch_id input 0 cases in
        let selects : tally.selected_count ≡ selected_sum cancel branch_id input 0 cases =
          omega (arith, a, inv.selected, picked) in
        let completes : tally.completed_count ≡ count_if is_completed expected =
          omega (arith, c, inv.completed, full) in
        let fails : tally.failed_count ≡ count_if is_failed expected = omega (
          arith, a, b, c, inv.selected, inv.refused, inv.completed, picked, lost, full, whole, part,
        ) in
        (
          ap₂ (λ x y. aggregate_result {A = A} x y) slots fine,
          selects,
          completes,
          fails,
          completed_event branch_id s.sink selects completes fails,
        )

module _ {S A : Type 0} (cancel : ℕ → CancellationToken) (branch_id : StageId) (input : Value A)
    (node : BranchNode S A) (sink : Sink) {s : System S A}
    (reach : Reach cancel branch_id input node.cases sink s) where
  -- The pool changes nothing: unless a stop is requested, a parallel fan-in gives the result of the
  -- sequential one, in whatever order its tasks are run.
  pub fan_in-agree :
      (r : Result Unit Error) (other : Sink)
      → ((i : ℕ) → stop_requested (cancel i) ≡ false)
      → s.unscheduled ≡ []
      → wait s.run.group ≡ some r
      → (conclude_fan_in branch_id s.run r s.sink).0
        ≡ (run_fan_in_branch construct_stages_per_run branch_id node input other).0.0
  fan_in-agree r other live over h =
      (fan_in-outcome cancel branch_id input node.cases sink reach over r h).0
      ∙ ap (λ x. ok (results x)) (live_slots cancel branch_id input live 0 node.cases)
      ∙ sym (run_fan_in_branch-slots construct_stages_per_run branch_id input node other)
