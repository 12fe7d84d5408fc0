-- ===== src/Sequential/Attribution.antt =====
-- A failed run names the stage that failed, and has told the observer so.
use pipeline_c.Prelude.{
  ℕ, suc, ◌≡◌, ◌≢◌, refl, ap, sym, subst, true, ◌⊎◌, inl, inr, List, [], ◌∷◌, All, arith, Text,
  decimal, decimal-ne-nil,
}
use pipeline_c.Error.{StageId, Error, has_stage}
use pipeline_c.Result.{
  Result, ok, err, UserError, to_result, normalize_expected_error, err-injective,
}
use pipeline_c.Observer.{on_stage_failure, on_stage_exception, Sink, send, Run, pure, notify, ◌>>=◌}
use pipeline_c.Stage.{
  Value, Outcome, returned, thrown, thrown_unknown, Node, node_key, node_name, StageStoragePolicy,
  stage_id_for_fallback, stage_id_for,
}
use pipeline_c.Sequential.Calls.{
  annotate_stage_error, observer_error_for, exception_error, unknown_exception_error,
  normalize_stage_error, notify_stage_failure, notify_stage_exception, conclude, settle,
}
use pipeline_c.Sequential.Engine.{continue_run, try_run_after_result}

annotate_stage_error-HasStage :
    (id : StageId) (e : Error)
    → has_stage id ≡ true
    → has_stage (annotate_stage_error id e).stage ≡ true
unfolding annotate_stage_error
annotate_stage_error-HasStage id e h = ground arith

annotate_stage_error_idem :
    (id : StageId) (e : Error)
    → annotate_stage_error id (annotate_stage_error id e) ≡ annotate_stage_error id e
unfolding annotate_stage_error
annotate_stage_error_idem id e = ground arith

annotate_stage_error_self :
    (id : StageId) (e : Error) → has_stage e.stage ≡ true → annotate_stage_error id e ≡ e
unfolding annotate_stage_error
annotate_stage_error_self id e h = ground arith

-- The last event that a sink was sent is the failure or the exception of a stage, with this error.
pub record Reported (e : Error) (s : Sink) : Type 0 where
  pub attributed : has_stage e.stage ≡ true
  pub before : Sink
  pub id : StageId
  pub told : (s ≡ send (on_stage_failure id e) before) ⊎ (s ≡ send (on_stage_exception id e) before)

module _ (id : StageId) (named : has_stage id ≡ true) where
  exception-Reported :
      (e : Error) (s : Sink) → e.stage ≡ id → Reported e (notify_stage_exception id e s).1
  unfolding notify_stage_exception observer_error_for notify
  exception-Reported e s h = record {
    attributed = subst (λ i. has_stage i ≡ true) (sym h) named;
    before = s;
    id = id;
    told = inr (
        ap (λ x. send (on_stage_exception id x) s)
          (annotate_stage_error_self id e (subst (λ i. has_stage i ≡ true) (sym h) named)));
  }

  conclude-Reported :
      {B : Type 0} (r : Result B UserError) (s : Sink) (e : Error)
      → (conclude id r s).0 ≡ err e
      → Reported e (conclude id r s).1
  unfolding conclude ◌>>=◌ pure notify_stage_failure observer_error_for notify normalize_stage_error
  conclude-Reported {B} (ok b) s e h = cc
  conclude-Reported {B} (err u) s e h =
      let n = normalize_expected_error u in
      subst (λ x. Reported x (conclude {B = B} id (err u) s).1) (err-injective {A = B} h)
        (record {
          attributed = annotate_stage_error-HasStage id n named;
          before = s;
          id = id;
          told = inl (ap (λ x. send (on_stage_failure id x) s) (annotate_stage_error_idem id n));
        })

  settle-Reported :
      {B : Type 0} (o : Outcome B) (s : Sink) (e : Error)
      → (settle id o s).0 ≡ err e
      → Reported e (settle id o s).1
  unfolding settle ◌>>=◌ pure exception_error unknown_exception_error
  settle-Reported (returned r) s e h = conclude-Reported (to_result r) s e h
  settle-Reported {B} (thrown what) s e h =
      let x = exception_error id what in
      subst (λ y. Reported y (notify_stage_exception id x s).1) (err-injective {A = B} h)
        (exception-Reported x s refl)
  settle-Reported {B} thrown_unknown s e h =
      let x = unknown_exception_error id in
      subst (λ y. Reported y (notify_stage_exception id x s).1) (err-injective {A = B} h)
        (exception-Reported x s refl)

-- A stage whose key and name are not both empty; a stage without either is called "<unnamed>".
abbrev pub IsNamed : {S A : Type 0} → Node S A → Type 0
IsNamed node = has_stage (record { key = node_key node; name = node_name node }) ≡ true

fallback-HasStage :
    (key name fallback : Text)
    → fallback ≢ []
    → has_stage (record { key = key; name = name }) ≡ true
    → has_stage (stage_id_for_fallback key name fallback) ≡ true
unfolding stage_id_for_fallback has_stage
fallback-HasStage key name fallback h named = ground arith

stage_id_for-HasStage :
    {S A : Type 0} (node : Node S A) (i : ℕ) → IsNamed node → has_stage (stage_id_for node i) ≡ true
unfolding stage_id_for
stage_id_for-HasStage node i named = fallback-HasStage _ _ (decimal i) (decimal-ne-nil i) named

module _ {S A : Type 0} where
  continue_run-Reported :
      (node : Node S A) (rest : List (Node S A))
      (next : Value A → Run (Result (Value A) Error × List (Node S A))) (r : Result (Value A) Error)
      (s : Sink) (e : Error)
      → (r ≡ err e → Reported e s)
      → ((v : Value A) (t : Sink) → (next v t).0.0 ≡ err e → Reported e (next v t).1)
      → (continue_run node rest next r s).0.0 ≡ err e
      → Reported e (continue_run node rest next r s).1
  unfolding continue_run ◌>>=◌ pure
  continue_run-Reported node rest next (err x) s e now later h = now h
  continue_run-Reported node rest next (ok v) s e now later h = later v s h

  -- If a run over named stages fails with an error, then that error has a stage, and the last event
  -- that the observer was sent is the failure or the exception of a stage with this very error.
  pub try_run-Reported :
      (policy : StageStoragePolicy) (i : ℕ) (nodes : List (Node S A)) (input : Value A) (s : Sink)
      (e : Error)
      → All IsNamed nodes
      → (try_run_after_result policy i nodes input s).0.0 ≡ err e
      → Reported e (try_run_after_result policy i nodes input s).1
  unfolding try_run_after_result ◌>>=◌ pure
  try_run-Reported policy i [] input s e named h = cc
  try_run-Reported policy i (node ∷ rest) input s e named h =
      continue_run-Reported _ rest (try_run_after_result policy (suc i) rest) _ _ e
        (λ r. settle-Reported (stage_id_for node i) (stage_id_for-HasStage node i named.0) _ _ e r)
        (λ v t. try_run-Reported policy (suc i) rest v t e named.1) h
