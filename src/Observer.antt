-- ===== src/Observer.antt =====
-- include/pb/runtime/observer.hpp: the events that an observer is sent, and actions that send them.
-- The observer of the model records its calls; a null observer is `none` and records nothing.
pub mod Emits
use pipeline_c.Prelude.{ℕ, Bool, Option, none, some, List, [], ◌∷◌, ◌++◌}
use pipeline_c.Error.{StageId, Error}

-- One constructor for each handler of `observer`.
pub data Event : Type 0 where
  on_stage_start : StageId → Event
  on_stage_success : StageId → Event
  on_stage_failure : StageId → Error → Event
  on_stage_exception : StageId → Error → Event
  on_case_selected : (branch_id : StageId) (case_index : ℕ) (predicate_id : StageId) → Event
  on_case_skipped : (branch_id : StageId) (case_index : ℕ) (predicate_id : StageId) → Event
  on_case_failed :
      (branch_id : StageId) (case_index : ℕ) (case_stage_id : StageId) (diagnostic : Error) → Event
  on_fan_in_started : (branch_id : StageId) (case_count : ℕ) → Event
  on_fan_in_case_scheduled :
      (branch_id : StageId) (case_index : ℕ) (case_stage_id : StageId) → Event
  on_fan_in_case_completed :
      (branch_id : StageId) (case_index : ℕ) (case_stage_id : StageId) (success : Bool) → Event
  on_fan_in_completed :
      (branch_id : StageId) (selected_count completed_count failed_count : ℕ) → Event

-- The pointer to the observer, with the events that it has been sent.
abbrev pub Sink : Type 0
Sink = Option (List Event)

-- `if (sink != nullptr) sink->...`
unfoldable pub send : Event → Sink → Sink
send e none = none
send e (some events) = some (events ++ e ∷ [])

-- An action that may send events.
abbrev pub Run : Type 0 → Type 0
Run A = Sink → A × Sink

unfoldable pub pure : {A : Type 0} → A → Run A
pure a s = (a, s)

infixl 5 ◌>>=◌ ◌>>◌
unfoldable pub ◌>>=◌ : {A B : Type 0} → Run A → (A → Run B) → Run B
◌>>=◌ m f s = let (a, s') = m s in f a s'

abbrev pub ◌>>◌ : {B : Type 0} → Run (Unit {0}) → Run B → Run B
m >> k = m >>= λ _. k

unfoldable pub notify : Event → Run (Unit {0})
notify e s = (tt, send e s)
