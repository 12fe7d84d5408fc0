-- ===== src/Policy.antt =====
-- The markers of include/pb/core/policy.hpp, the `with` of include/pb/core/pipeline_state.hpp that a
-- pipeline takes them by, and the choice that `compile` of include/pb/runtime/sequential.hpp makes.
pub mod Axis
pub mod Choice
mod Tests
use pipeline_c.Prelude.{
  ℕ, zero, suc, Bool, true, false, ◌&&◌, Option, none, some, List, [], ◌∷◌, ◌++◌, leb,
  if◌then◌else◌,
}
use mathlib.Core.Option.{bind}
use pipeline_c.Error.{Error}
use pipeline_c.Result.{Result}
use pipeline_c.Stage.{Value}
use pipeline_c.Sequential.Engine.{SequentialEngine, try_run}
use pipeline_c.ErrorPolicy.{
  Wrapper, with_throw_on_error, with_terminate_on_error, with_ignore_errors,
}
use pipeline_c.Verbose.{VerboseEngine, with_verbose_diagnostics, verbose_try_run}

pub data ErrorMarker : Type 0 where
  throwing terminating ignoring propagating result : ErrorMarker

pub data DiagnosticsMarker : Type 0 where
  verbose quiet : DiagnosticsMarker

pub data CopyingMarker : Type 0 where
  by_value move_only shared clone : CopyingMarker

-- A type that `with` is given: a marker of one of the three axes, or any other type, as the tags of
-- `policy.hpp` that no axis has.
pub data Policy : Type 0 where
  errors : ErrorMarker → Policy
  diagnostics : DiagnosticsMarker → Policy
  copying : CopyingMarker → Policy
  other : (tag : ℕ) → Policy

-- `is_error_policy` and its like, of `policy.hpp`: each marker has a specialisation.
unfoldable pub is_error_policy : Policy → Bool
is_error_policy (errors marker) = true
is_error_policy (diagnostics marker) = false
is_error_policy (copying marker) = false
is_error_policy (other tag) = false

unfoldable pub is_diagnostics_policy : Policy → Bool
is_diagnostics_policy (errors marker) = false
is_diagnostics_policy (diagnostics marker) = true
is_diagnostics_policy (copying marker) = false
is_diagnostics_policy (other tag) = false

unfoldable pub is_copying_policy : Policy → Bool
is_copying_policy (errors marker) = false
is_copying_policy (diagnostics marker) = false
is_copying_policy (copying marker) = true
is_copying_policy (other tag) = false

-- `is_error_policy_marker` and its like, which `pipeline_state.hpp` declares once more.
unfoldable pub is_error_policy_marker : Policy → Bool
is_error_policy_marker (errors marker) = true
is_error_policy_marker (diagnostics marker) = false
is_error_policy_marker (copying marker) = false
is_error_policy_marker (other tag) = false

unfoldable pub is_diagnostics_policy_marker : Policy → Bool
is_diagnostics_policy_marker (errors marker) = false
is_diagnostics_policy_marker (diagnostics marker) = true
is_diagnostics_policy_marker (copying marker) = false
is_diagnostics_policy_marker (other tag) = false

unfoldable pub is_copying_policy_marker : Policy → Bool
is_copying_policy_marker (errors marker) = false
is_copying_policy_marker (diagnostics marker) = false
is_copying_policy_marker (copying marker) = true
is_copying_policy_marker (other tag) = false

unfoldable pub policy_axis_count : (Policy → Bool) → List Policy → ℕ
policy_axis_count predicate [] = 0
policy_axis_count predicate (policy ∷ policies) =
    let rest = policy_axis_count predicate policies in if predicate policy then suc rest else rest

-- the three assertions of `append_policies`
unfoldable pub is_accepted : List Policy → Bool
is_accepted policies =
    leb (policy_axis_count is_error_policy_marker policies) 1
    && (leb (policy_axis_count is_diagnostics_policy_marker policies) 1
        && leb (policy_axis_count is_copying_policy_marker policies) 1)

-- `append_policies`; none where an assertion fails
unfoldable pub append_policies :
    (existing : List Policy) → (added : List Policy) → Option (List Policy)
append_policies existing added =
    let policies = existing ++ added in if is_accepted policies then some policies else none

-- none is `void`
unfoldable pub first_policy_matching : (Policy → Bool) → List Policy → Option Policy
first_policy_matching predicate [] = none
first_policy_matching predicate (policy ∷ policies) =
    let rest = first_policy_matching predicate policies in
    if predicate policy then some policy else rest

unfoldable pub pipeline_error_policy : List Policy → Option Policy
pipeline_error_policy policies = first_policy_matching is_error_policy policies

unfoldable pub pipeline_diagnostics_policy : List Policy → Option Policy
pipeline_diagnostics_policy policies = first_policy_matching is_diagnostics_policy policies

unfoldable pub pipeline_copying_policy : List Policy → Option Policy
pipeline_copying_policy policies = first_policy_matching is_copying_policy policies

-- What `apply_error_policy` puts around an engine, if anything. The output type's value-initialized
-- object is none where that type is void. The outer none is a failed assertion.
unfoldable pub error_wrapper :
    {A : Type 0} → (output : Option A) → Option Policy → Option (Option (Wrapper A))
error_wrapper output (some (errors throwing)) = some (some with_throw_on_error)
error_wrapper output (some (errors terminating)) = some (some with_terminate_on_error)
error_wrapper none (some (errors ignoring)) = none
error_wrapper (some a) (some (errors ignoring)) = some (some (with_ignore_errors a))
error_wrapper output (some (errors propagating)) = some none
error_wrapper output (some (errors result)) = some none
error_wrapper output (some (diagnostics marker)) = some none
error_wrapper output (some (copying marker)) = some none
error_wrapper output (some (other tag)) = some none
error_wrapper output none = some none

-- A compiled engine, with its error wrapper. The wrapper passes `set_observer` and `try_run` on to
-- its engine, so that a verbose engine around it is a verbose engine inside it.
pub data CompiledEngine (S A : Type 0) : Type 0 where
  plain_engine : Option (Wrapper (Value A)) → SequentialEngine S A → CompiledEngine S A
  logged_engine : Option (Wrapper (Value A)) → VerboseEngine S A → CompiledEngine S A

module _ {S A : Type 0} where
  unfoldable pub apply_error_policy :
      (output : Option (Value A))
      → List Policy
      → SequentialEngine S A
      → Option (Option (Wrapper (Value A)) × SequentialEngine S A)
  apply_error_policy output policies engine =
      bind (error_wrapper output (pipeline_error_policy policies))
        (λ wrapper. some (wrapper, engine))

  -- `apply_diagnostics_policy`, at the marker that it finds; the stream is `std::clog`
  unfoldable pub diagnose :
      Option Policy → Option (Wrapper (Value A)) × SequentialEngine S A → CompiledEngine S A
  diagnose (some (diagnostics verbose)) (wrapper, engine) =
      logged_engine wrapper (with_verbose_diagnostics engine true)
  diagnose (some (diagnostics quiet)) (wrapper, engine) = plain_engine wrapper engine
  diagnose (some (errors marker)) (wrapper, engine) = plain_engine wrapper engine
  diagnose (some (copying marker)) (wrapper, engine) = plain_engine wrapper engine
  diagnose (some (other tag)) (wrapper, engine) = plain_engine wrapper engine
  diagnose none (wrapper, engine) = plain_engine wrapper engine

  unfoldable pub apply_diagnostics_policy :
      List Policy → Option (Wrapper (Value A)) × SequentialEngine S A → CompiledEngine S A
  apply_diagnostics_policy policies engine = diagnose (pipeline_diagnostics_policy policies) engine

  -- `compile`, for the engine that it constructs; none where it does not compile
  unfoldable pub compile :
      (output : Option (Value A)) → List Policy → SequentialEngine S A → Option (CompiledEngine S A)
  compile output policies engine =
      bind (apply_error_policy output policies engine)
        (λ wrapped. some (apply_diagnostics_policy policies wrapped))

  -- `try_run` of what `compile` returns
  unfoldable pub compiled_try_run : CompiledEngine S A → Value A → Result (Value A) Error
  compiled_try_run (plain_engine wrapper engine) input = (try_run engine input).0
  compiled_try_run (logged_engine wrapper engine) input = (verbose_try_run engine input).0
