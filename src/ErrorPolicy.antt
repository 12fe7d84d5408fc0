-- ===== src/ErrorPolicy.antt =====
-- The engine wrappers of include/pb/runtime/error_policy.hpp that decide what a failed run comes to:
-- an exception, the end of the program, a fallback value, or the result.
pub mod Endings
mod Tests
use pipeline_c.Prelude.{
  Bool, true, false, ◌&&◌, List, [], ◌∷◌, ◌++◌, codes, Text, is_empty, if◌then◌else◌,
}
use pipeline_c.Error.{
  ErrorCategory, stage_failure, expected_error, exception, contract_violation, Error, category_name,
  has_stage, has_message,
}
use pipeline_c.Result.{Result, ok, err}
use pipeline_c.Stage.{Value}
use pipeline_c.Sequential.Engine.{SequentialEngine, try_run}

-- `pipeline_exception`, with its `what()`
pub record PipelineException : Type 0 where
  pub what : Text
  pub diagnostic : Error

-- The dash is three bytes of UTF-8.
abbrev pub dash : Text
dash = 0x20 ∷ 0xE2 ∷ 0x80 ∷ 0x94 ∷ 0x20 ∷ []

unfoldable pub stage_tag : Error → Text
stage_tag value =
    if has_stage value.stage
    then codes "["
      ++ ((if is_empty value.stage.key then value.stage.name else value.stage.key) ++ codes "] ")
    else []

unfoldable pub format_message : Error → Text
format_message value =
    codes "pb::pipeline_exception: "
    ++ (stage_tag value
        ++ (category_name value.category
            ++ (if has_message value then dash ++ value.message else [])))

-- the constructor of `pipeline_exception`
unfoldable pub pipeline_exception : Error → PipelineException
pipeline_exception e = record { what = format_message e; diagnostic = e }

-- How `run` of a wrapper ends.
pub data Ending (A : Type 0) : Type 0 where
  value : A → Ending A
  outcome : Result A Error → Ending A
  threw : PipelineException → Ending A
  terminated : Ending A

-- `throwing_engine`, `terminating_engine`, `ignoring_engine` with its fallback, and
-- `propagating_engine`
pub data Wrapper (A : Type 0) : Type 0 where
  throwing terminating propagating : Wrapper A
  ignoring : (fallback : A) → Wrapper A

-- The functions of these names, but for the engine that they wrap.
abbrev pub with_throw_on_error : {A : Type 0} → Wrapper A
with_throw_on_error = throwing

abbrev pub with_terminate_on_error : {A : Type 0} → Wrapper A
with_terminate_on_error = terminating

abbrev pub with_ignore_errors : {A : Type 0} → A → Wrapper A
with_ignore_errors fallback = ignoring fallback

unfoldable pub is_exception : ErrorCategory → Bool
is_exception stage_failure = false
is_exception expected_error = false
is_exception exception = true
is_exception contract_violation = false

-- `run` of a wrapper, behind the `try_run` of its engine
unfoldable pub end_run : {A : Type 0} → Wrapper A → Result A Error → Ending A
unfolding is_exception
end_run throwing (ok a) = value a
end_run throwing (err e) = threw (pipeline_exception e)
end_run terminating (ok a) = value a
end_run terminating (err e) = terminated
end_run (ignoring fallback) (ok a) = value a
end_run (ignoring fallback) (err e) = value fallback
end_run propagating (ok a) = outcome (ok a)
end_run propagating (err e) =
    if is_exception e.category then threw (pipeline_exception e) else outcome (err e)

module _ {S A : Type 0} where
  unfoldable pub run :
      Wrapper (Value A) → SequentialEngine S A → Value A → Ending (Value A) × SequentialEngine S A
  run wrapper engine input = let (r, engine') = try_run engine input in (end_run wrapper r, engine')
