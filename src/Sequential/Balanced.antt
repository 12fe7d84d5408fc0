-- ===== src/Sequential/Balanced.antt =====
-- The stage events of a run are balanced: every start is closed by the one success, failure or
-- exception of the same stage, and stages close in the reverse order of their starts.
pub mod Branches
pub mod FanIns
pub mod Runs
use pipeline_c.Prelude.{
  ℕ, suc, ◌≡◌, refl, ◌∙◌, ap, Bool, true, false, ◌&&◌, Option, none, some, List, [], ◌∷◌, ◌++◌,
  append_assoc, codes, Text, text_eq, text_eq_refl, if◌then◌else◌, arith, Bool-cases, Option-cases,
  inl, inr,
}
use pipeline_c.Error.{StageId, Error, exception, stage_failure}
use pipeline_c.Result.{Result, ok, err, UserError, to_result}
use pipeline_c.Observer.{
  Event, on_stage_start, on_stage_success, on_stage_failure, on_stage_exception, on_case_selected,
  on_case_skipped, on_case_failed, on_fan_in_started, on_fan_in_case_scheduled,
  on_fan_in_case_completed, on_fan_in_completed, Sink, Run, pure, notify, ◌>>=◌, ◌>>◌,
}
use pipeline_c.Observer.Emits.{Emits, Emits-pure, Emits-notify, Emits-bind, Emits-weaken}
use pipeline_c.Stage.{
  Value, Outcome, returned, thrown, thrown_unknown, Callable, Case, BranchNode, Node, stage,
  type_list_join, selected_branch, fan_in_branch, FanInCaseResult, StageStoragePolicy,
  construct_stages_per_run, store_stages_in_engine, stage_id_for, branch_child_stage_id,
}
use pipeline_c.Sequential.Calls.{
  invoke, settle, conclude, notify_stage_failure, notify_stage_exception,
}

pub id_eq : StageId → StageId → Bool
id_eq a b = text_eq a.key b.key && text_eq a.name b.name

id_eq_refl : (a : StageId) → id_eq a a ≡ true
unfolding id_eq
id_eq_refl a = ground (arith, text_eq_refl a.key, text_eq_refl a.name)

-- The stage on top of the stack is closed.
pub close : StageId → List StageId → Option (List StageId)
close id [] = none
close id (open_id ∷ stack) = if id_eq open_id id then some stack else none

pub on_event : Event → List StageId → Option (List StageId)
on_event (on_stage_start id) stack = some (id ∷ stack)
on_event (on_stage_success id) stack = close id stack
on_event (on_stage_failure id e) stack = close id stack
on_event (on_stage_exception id e) stack = close id stack
on_event _ stack = some stack

-- The stages that are open after some events, innermost first; `none` if one is closed out of turn.
pub track : List Event → List StageId → Option (List StageId)
track [] stack = some stack
track (e ∷ events) stack = elim (on_event e stack) [
  | none ↦ none
  | some stack' ↦ track events stack'
]

-- Events that leave the stages `b` open where the stages `a` were, above any others.
abbrev pub Shifts : List StageId → List StageId → List Event → Type 0
Shifts a b events = (stack : List StageId) → track events (a ++ stack) ≡ some (b ++ stack)

track-append :
    (es fs : List Event) (a b : List StageId)
    → track es a ≡ some b
    → track (es ++ fs) a ≡ track fs b
unfolding track
track-append [] fs a b h = ground arith
track-append (e ∷ es) fs a b h = elim (Option-cases (on_event e a)) [
  | inl stuck ↦ ground arith
  | inr (a', next) ↦ ground (arith, track-append es fs a' b)
]

-- An action whose events shift the open stages so.
pub record Moving {B : Type 0} (a b : List StageId) (m : Run B) : Type 0 where
  pub emits : Emits (λ _ events. Shifts a b events) m

pub Moving-pure : {B : Type 0} (a : List StageId) (x : B) → Moving a a (pure x)
unfolding track
Moving-pure a x = record { emits = Emits-pure x (λ stack. refl) }

pub Moving-bind :
    {B C : Type 0} {m : Run B} (a b c : List StageId) (f : B → Run C)
    → Moving a b m
    → ((x : B) → Moving b c (f x))
    → Moving a c (m >>= f)
Moving-bind a b c f mm mf = record {
  emits = Emits-bind f mm.emits λ x es hs.
      Emits-weaken (λ _ fs hf stack. track-append es fs _ _ (hs stack) ∙ hf stack) (mf x).emits;
}

close_self : (id : StageId) (stack : List StageId) → close id (id ∷ stack) ≡ some stack
unfolding close
close_self id stack = rw id_eq_refl

pub Moving-start :
    (a : List StageId) (id : StageId) → Moving a (id ∷ a) (notify (on_stage_start id))
unfolding track on_event
Moving-start a id = record { emits = Emits-notify _ (λ stack. refl) }

pub Moving-success :
    (a : List StageId) (id : StageId) → Moving (id ∷ a) a (notify (on_stage_success id))
unfolding track on_event
Moving-success a id = record {
  emits = Emits-notify _ (λ stack. ground (arith, close_self id (a ++ stack)));
}

pub Moving-failure :
    (a : List StageId) (id : StageId) (e : Error) → Moving (id ∷ a) a (notify_stage_failure id e)
unfolding track on_event notify_stage_failure
Moving-failure a id e = record {
  emits = Emits-notify _ (λ stack. ground (arith, close_self id (a ++ stack)));
}

pub Moving-exception :
    (a : List StageId) (id : StageId) (e : Error) → Moving (id ∷ a) a (notify_stage_exception id e)
unfolding track on_event notify_stage_exception
Moving-exception a id e = record {
  emits = Emits-notify _ (λ stack. ground (arith, close_self id (a ++ stack)));
}

module _ (a : List StageId) (id : StageId) {B : Type 0} where
  conclude-Moving : (r : Result B UserError) → Moving (id ∷ a) a (conclude id r)
  unfolding conclude
  conclude-Moving (ok b) = Moving-bind (id ∷ a) a a _ (Moving-success a id) λ _. Moving-pure a _
  conclude-Moving (err e) = Moving-bind (id ∷ a) a a _ (Moving-failure a id _) λ _. Moving-pure a _

  pub settle-Moving : (o : Outcome B) → Moving (id ∷ a) a (settle id o)
  unfolding settle
  settle-Moving (returned r) = conclude-Moving (to_result r)
  settle-Moving (thrown what) =
      Moving-bind (id ∷ a) a a _ (Moving-exception a id _) λ _. Moving-pure a _
  settle-Moving thrown_unknown =
      Moving-bind (id ∷ a) a a _ (Moving-exception a id _) λ _. Moving-pure a _

-- Events of the other kinds open and close nothing.
module _ (a : List StageId) (branch id : StageId) (i : ℕ) where
  pub Moving-selected : Moving a a (notify (on_case_selected branch i id))
  unfolding track on_event
  Moving-selected = record { emits = Emits-notify _ (λ stack. refl) }

  pub Moving-skipped : Moving a a (notify (on_case_skipped branch i id))
  unfolding track on_event
  Moving-skipped = record { emits = Emits-notify _ (λ stack. refl) }

  pub Moving-failed : (e : Error) → Moving a a (notify (on_case_failed branch i id e))
  unfolding track on_event
  Moving-failed e = record { emits = Emits-notify _ (λ stack. refl) }

  pub Moving-scheduled : Moving a a (notify (on_fan_in_case_scheduled branch i id))
  unfolding track on_event
  Moving-scheduled = record { emits = Emits-notify _ (λ stack. refl) }

  pub Moving-case_completed :
      (b : Bool) → Moving a a (notify (on_fan_in_case_completed branch i id b))
  unfolding track on_event
  Moving-case_completed b = record { emits = Emits-notify _ (λ stack. refl) }

module _ (a : List StageId) (branch : StageId) (i : ℕ) where
  pub Moving-fan_in_started : Moving a a (notify (on_fan_in_started branch i))
  unfolding track on_event
  Moving-fan_in_started = record { emits = Emits-notify _ (λ stack. refl) }

  pub Moving-fan_in_completed : (j k : ℕ) → Moving a a (notify (on_fan_in_completed branch i j k))
  unfolding track on_event
  Moving-fan_in_completed j k = record { emits = Emits-notify _ (λ stack. refl) }

-- The rules for a `do` block, by its first action.
module _ {C : Type 0} (a c : List StageId) where
  pub Moving-if :
      (t : Bool) (m n : Run C) → Moving a c m → Moving a c n → Moving a c (if t then m else n)
  Moving-if true m n hm hn = hm
  Moving-if false m n hm hn = hn

  pub Moving-open :
      (id : StageId) (f : Unit {0} → Run C)
      → ((x : Unit {0}) → Moving (id ∷ a) c (f x))
      → Moving a c (notify (on_stage_start id) >>= f)
  Moving-open id f k = Moving-bind a (id ∷ a) c f (Moving-start a id) k

module _ {B C : Type 0} (a c : List StageId) where
  pub Moving-settle :
      (id : StageId) (o : Outcome B) (f : Result B Error → Run C)
      → ((x : Result B Error) → Moving a c (f x))
      → Moving (id ∷ a) c (settle id o >>= f)
  Moving-settle id o f k = Moving-bind (id ∷ a) a c f (settle-Moving a id o) k

  pub Moving-then :
      {m : Run B} (f : B → Run C)
      → Moving a a m
      → ((x : B) → Moving a c (f x))
      → Moving a c (m >>= f)
  Moving-then f h k = Moving-bind a a c f h k

pub ruleset moving_rules = (
  Moving-pure, Moving-open, Moving-settle, Moving-then, Moving-if, Moving-selected, Moving-skipped,
  Moving-failed, Moving-scheduled, Moving-case_completed, Moving-fan_in_started,
  Moving-fan_in_completed,
)
