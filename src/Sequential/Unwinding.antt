-- ===== src/Sequential/Unwinding.antt =====
-- An exception that leaves `run` of include/pb/runtime/sequential.hpp: the `catch` blocks of
-- `run_after_result` stand around the runs over the stages behind.
use pipeline_c.Prelude.{
  ℕ, suc, ◌≡◌, refl, sym, ◌∙◌, ap, ap₂, Option, none, some, some-injective, List, ◌∷◌, Bool-cases,
  inl, inr,
}
use pipeline_c.Error.{StageId, Error, has_stage}
use pipeline_c.Observer.{on_stage_start, on_stage_exception, Sink, pure, notify, send, ◌>>=◌}
use pipeline_c.Stage.{
  Value, Outcome, returned, thrown, thrown_unknown, Node, StageStoragePolicy, stage_id_for,
}
use pipeline_c.Sequential.Calls.{
  annotate_stage_error, observer_error_for, exception_error, unknown_exception_error,
  notify_stage_exception,
}
use pipeline_c.Sequential.Engine.{invoke_stage}
use pipeline_c.Sequential.TypedRun.{
  TargetError, Ran, error_or_throw, catch_run, after_call, run_after_result,
}

-- The error that is made of an exception, at a stage.
abbrev pub exception_of : {B : Type 0} → StageId → Outcome B → Option Error
exception_of id (returned r) = none
exception_of id (thrown what) = some (exception_error id what)
exception_of id thrown_unknown = some (unknown_exception_error id)

annotate_of_its_stage : (id : StageId) (e : Error) → e.stage ≡ id → annotate_stage_error id e ≡ e
unfolding annotate_stage_error
annotate_of_its_stage id e same = elim (Bool-cases (has_stage e.stage)) [
  | inl known ↦ rw known refl
  | inr unknown ↦ rw unknown (ap (λ i. record e { stage = i }) (sym same))
]

error_or_throw-throws :
    {B : Type 0} (target : TargetError)
    → target.from_error ≡ none
    → (e : Error) (o : Outcome B) → error_or_throw target.from_error e o ≡ o
unfolding error_or_throw
error_or_throw-throws target throws e o = ap (λ c. error_or_throw c e o) throws

module _ {S A : Type 0} (target : TargetError) (id : StageId)
    (throws : target.from_error ≡ none) where
  catch_run-throws :
      (ran : Ran S A) (s : Sink) (e : Error)
      → exception_of id (catch_run target id ran s).0.0 ≡ some e
      → (exception_of id ran.0 ≡ some e)
        × (catch_run target id ran s ≡ (ran, send (on_stage_exception id e) s))
  unfolding catch_run notify_stage_exception observer_error_for exception_error
      unknown_exception_error ◌>>=◌ pure notify
  catch_run-throws (returned r, stages) s e h = cc
  catch_run-throws (thrown what, stages) s e h =
      let same = error_or_throw-throws target throws (exception_error id what) (thrown what) in
      let is_e = sym (ap (exception_of id) same) ∙ h in
      (
        is_e,
        ap₂ (λ o x. ((o, stages), send (on_stage_exception id x) s)) same
            (annotate_of_its_stage id _ refl ∙ some-injective _ _ is_e),
      )
  catch_run-throws (thrown_unknown, stages) s e h =
      let same = error_or_throw-throws target throws (unknown_exception_error id) thrown_unknown in
      let is_e = sym (ap (exception_of id) same) ∙ h in
      (
        is_e,
        ap₂ (λ o x. ((o, stages), send (on_stage_exception id x) s)) same
            (annotate_of_its_stage id _ refl ∙ some-injective _ _ is_e),
      )

-- If the error type of the results cannot be made of the library's error and an exception leaves the
-- run, then the last event that the observer was sent is an exception of the first stage, whichever
-- stage threw.
pub run_after_result-blames_first :
    {S A : Type 0} (target : TargetError) (policy : StageStoragePolicy) (i : ℕ) (node : Node S A)
    (rest : List (Node S A)) (input : Value A) (s : Sink) (e : Error)
    → target.from_error ≡ none
    → exception_of
        (stage_id_for node i)
        (run_after_result target policy i (node ∷ rest) input s).0.0
      ≡ some e
    → (before : Sink) × ((run_after_result target policy i (node ∷ rest) input s).1
        ≡ send (on_stage_exception (stage_id_for node i) e) before)
unfolding run_after_result ◌>>=◌ pure notify
run_after_result-blames_first target policy i node rest input s e throws h =
    let id = stage_id_for node i in
    let call = invoke_stage policy id node input (send (on_stage_start id) s) in
    let ran =
      after_call target id call.0.1 rest (run_after_result target policy (suc i) rest) call.0.0
        call.1 in
    let (_, sent) = catch_run-throws target id throws ran.0 ran.1 e h in (ran.1, ap (λ x. x.1) sent)
