-- ===== src/ErrorPolicy/Endings.antt =====
-- What the ending of a wrapped run of include/pb/runtime/error_policy.hpp tells of the run.
use pipeline_c.Prelude.{
  ◌≡◌, refl, ap, ◌∙◌, sym, subst, Bool, true, false, [], ◌++◌, codes, All, ◌⊎◌, inl, inr,
  Bool-cases, if◌then◌else◌,
}
use pipeline_c.Error.{Error, category_name, has_message}
use pipeline_c.Error.Describe.{
  Contains, Contains-self, Contains-nil, Contains-append_left, Contains-append_right,
  message_or_nil,
}
use pipeline_c.Result.{Result, ok, err}
use pipeline_c.Stage.{Value}
use pipeline_c.Sequential.Engine.{SequentialEngine, try_run}
use pipeline_c.Sequential.Attribution.{IsNamed, Reported, try_run-Reported}
use pipeline_c.ErrorPolicy.{
  PipelineException, dash, stage_tag, format_message, pipeline_exception, Ending, value, outcome,
  threw, Wrapper, throwing, terminating, propagating, ignoring, is_exception, end_run, run,
}

value-injective : {A : Type 0} {v w : A} → value v ≡ value w → v ≡ w
value-injective h = cc

threw-injective :
    {A : Type 0} {x y : PipelineException} → ◌≡◌ {A = Ending A} (threw x) (threw y) → x ≡ y
threw-injective h = cc

no_value :
    {A G : Type 0} (b : Bool) (x : PipelineException) (r : Result A Error) (v : A)
    → (if b then threw x else outcome r) ≡ value v
    → G
no_value true x r v h = cc
no_value false x r v h = cc

threw_if :
    {A : Type 0} (b : Bool) (x y : PipelineException) (r : Result A Error)
    → ◌≡◌ {A = Ending A} (if b then threw x else outcome r) (threw y)
    → x ≡ y
threw_if {A} true x y r h = threw-injective {A = A} h
threw_if false x y r h = cc

abbrev failing : {A : Type 0} → Error → Result A Error
failing e = err e

thrown_lem :
    {A : Type 0} (e : Error) (x : PipelineException)
    → pipeline_exception e ≡ x
    → (◌≡◌ {A = Result A Error} (err e) (err x.diagnostic)) × (x ≡ pipeline_exception x.diagnostic)
unfolding pipeline_exception
thrown_lem {A} e x h =
    let same : e ≡ x.diagnostic = ap (λ y. y.diagnostic) h in
    (ap (failing {A = A}) same, sym h ∙ ap pipeline_exception same)

module _ {A : Type 0} where
  end_run-value :
      (w : Wrapper A) (r : Result A Error) (v : A)
      → end_run w r ≡ value v
      → (r ≡ ok v) ⊎ ((e : Error) × (r ≡ err e) × (w ≡ ignoring v))
  unfolding end_run
  end_run-value throwing (ok a) v h = inl (ap ok (value-injective h))
  end_run-value throwing (err e) v h = cc
  end_run-value terminating (ok a) v h = inl (ap ok (value-injective h))
  end_run-value terminating (err e) v h = cc
  end_run-value (ignoring f) (ok a) v h = inl (ap ok (value-injective h))
  end_run-value (ignoring f) (err e) v h = inr (e, refl, ap ignoring (value-injective h))
  end_run-value propagating (ok a) v h = cc
  end_run-value propagating (err e) v h = no_value (is_exception e.category) _ _ v h

  end_run-threw :
      (w : Wrapper A) (r : Result A Error) (x : PipelineException)
      → end_run w r ≡ threw x
      → (r ≡ err x.diagnostic) × (x ≡ pipeline_exception x.diagnostic)
  unfolding end_run
  end_run-threw throwing (ok a) x h = cc
  end_run-threw throwing (err e) x h = thrown_lem e x (threw-injective h)
  end_run-threw terminating (ok a) x h = cc
  end_run-threw terminating (err e) x h = cc
  end_run-threw (ignoring f) (ok a) x h = cc
  end_run-threw (ignoring f) (err e) x h = cc
  end_run-threw propagating (ok a) x h = cc
  end_run-threw propagating (err e) x h =
      thrown_lem e x (threw_if (is_exception e.category) _ x _ h)

message_shown : (e : Error) → Contains (if has_message e then dash ++ e.message else []) e.message
message_shown e = elim (Bool-cases (has_message e)) [
  | inl h ↦ rw h (Contains-append_right dash e.message e.message (Contains-self e.message))
  | inr h ↦ rw (h, message_or_nil e h) (Contains-nil [])
]

-- The text of an exception shows the category and the message of its error.
format_message-Contains :
    (e : Error)
    → Contains (format_message e) (category_name e.category) × Contains (format_message e) e.message
unfolding format_message
format_message-Contains e = (
  Contains-append_right (codes "pb::pipeline_exception: ") _ _ (
      Contains-append_right (stage_tag e) _ _
        (Contains-append_left (category_name e.category) _ _ (Contains-self _))),
  Contains-append_right (codes "pb::pipeline_exception: ") _ _ (
      Contains-append_right (stage_tag e) _ _
        (Contains-append_right (category_name e.category) _ _ (message_shown e))),
)

module _ {S A : Type 0} (w : Wrapper (Value A)) (engine : SequentialEngine S A)
    (input : Value A) where
  -- If a wrapped run ends with a value, then it is the value of the engine's own run, or else that
  -- run failed and the value is the fallback of a wrapper that ignores errors.
  pub run-value :
      (v : Value A)
      → (run w engine input).0 ≡ value v
      → ((try_run engine input).0 ≡ ok v)
        ⊎ ((e : Error) × ((try_run engine input).0 ≡ err e) × (w ≡ ignoring v))
  unfolding run
  run-value v h = end_run-value w (try_run engine input).0 v h

  -- If a wrapped run over named stages throws, then the exception carries the error of the engine's
  -- own run, which has a stage and which the observer was sent last; and the text of the exception
  -- shows the category and the message of that error.
  pub run-threw :
      (x : PipelineException)
      → All IsNamed engine.stages
      → (run w engine input).0 ≡ threw x
      → ((try_run engine input).0 ≡ err x.diagnostic)
        × Reported x.diagnostic (run w engine input).1.observer
        × Contains x.what (category_name x.diagnostic.category)
        × Contains x.what x.diagnostic.message
  unfolding run try_run pipeline_exception
  run-threw x named h =
      let (failed, built) = end_run-threw w (try_run engine input).0 x h in
      let (category, message) = format_message-Contains x.diagnostic in
      let what : x.what ≡ format_message x.diagnostic = ap (λ y. y.what) built in
      (
        failed,
        try_run-Reported engine.policy 0 engine.stages input engine.observer x.diagnostic named
            failed,
        subst (λ t. Contains t (category_name x.diagnostic.category)) (sym what) category,
        subst (λ t. Contains t x.diagnostic.message) (sym what) message,
      )
