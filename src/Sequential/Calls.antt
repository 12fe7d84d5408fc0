-- ===== src/Sequential/Calls.antt =====
-- What every stage call of include/pb/runtime/sequential.hpp goes through: the errors that are made
-- of what a callable reports or throws, and the events that report them.
use pipeline_c.Prelude.{not, ◌++◌, codes, Text, if◌then◌else◌}
use pipeline_c.Error.{
  ErrorCategory, stage_failure, exception, StageId, Error, has_stage, has_message,
}
use pipeline_c.Result.{
  Result, ok, err, UserError, native, carrying, error_message_from, normalize_expected_error,
  to_result,
}
use pipeline_c.Observer.{
  on_stage_start, on_stage_success, on_stage_failure, on_stage_exception, Run, pure, notify, ◌>>◌,
}
use pipeline_c.Stage.{
  Value, Outcome, returned, thrown, thrown_unknown, Callable, StageStoragePolicy,
  construct_stages_per_run, store_stages_in_engine,
}

-- `annotate_stage_error` of a library error: an error without a stage gets this one.
unfoldable pub annotate_stage_error : StageId → Error → Error
annotate_stage_error id source =
    if not (has_stage source.stage) then record source { stage = id } else source

unfoldable pub observer_error_for : StageId → UserError → ErrorCategory → Error
observer_error_for id (native value) fallback_category = annotate_stage_error id value
observer_error_for id (carrying diagnostic) fallback_category =
    let annotated = annotate_stage_error id diagnostic in
    if not (has_message annotated)
    then record annotated { message = error_message_from (carrying diagnostic) }
    else annotated
observer_error_for id value fallback_category = record {
  stage = id;
  category = fallback_category;
  message = error_message_from value;
}

unfoldable pub exception_error : StageId → Text → Error
exception_error id what = record { stage = id; category = exception; message = what }

unfoldable pub unknown_exception_error : StageId → Error
unknown_exception_error id = record {
  stage = id;
  category = exception;
  message = codes "stage threw an unknown exception";
}

unfoldable pub normalize_stage_error : StageId → UserError → Error
normalize_stage_error id e = annotate_stage_error id (normalize_expected_error e)

abbrev pub notify_stage_start : StageId → Run Unit
notify_stage_start id = notify (on_stage_start id)

abbrev pub notify_stage_success : StageId → Run Unit
notify_stage_success id = notify (on_stage_success id)

-- `notify_stage_failure` and `notify_stage_exception` of a library error
unfoldable pub notify_stage_failure : StageId → Error → Run Unit
notify_stage_failure id value =
    notify (on_stage_failure id (observer_error_for id (native value) stage_failure))

unfoldable pub notify_stage_exception : StageId → Error → Run Unit
notify_stage_exception id value =
    notify (on_stage_exception id (observer_error_for id (native value) exception))

-- The call of an object: a new one that is dropped afterwards, or the one that the engine stores.
unfoldable pub invoke :
    {S A B : Type 0} → StageStoragePolicy → Callable S A B → Value A → Outcome B × Callable S A B
invoke construct_stages_per_run c input = let (o, s) = c.call c.initial input in (o, c)
invoke store_stages_in_engine c input =
    let (o, s) = c.call c.object input in (o, record c { object = s })

-- What follows a call that returned: the `expected_like` branch, or the plain one.
unfoldable pub conclude : {B : Type 0} → StageId → Result B UserError → Run (Result B Error)
conclude id (ok b) = do notify_stage_success id; pure (ok b)
conclude id (err e) =
    let stage_error = normalize_stage_error id e in
    do notify_stage_failure id stage_error; pure (err stage_error)

-- What follows a call in its `try` block and its two `catch` blocks.
unfoldable pub settle : {B : Type 0} → StageId → Outcome B → Run (Result B Error)
settle id (returned r) = conclude id (to_result r)
settle id (thrown what) =
    let stage_error = exception_error id what in
    do notify_stage_exception id stage_error; pure (err stage_error)
settle id thrown_unknown =
    let stage_error = unknown_exception_error id in
    do notify_stage_exception id stage_error; pure (err stage_error)

-- The message of a failed branch node is marked with the node's name.
unfoldable pub mark_branch_error : {B : Type 0} → Text → Result B Error → Result B Error
mark_branch_error stage_name (ok b) = ok b
mark_branch_error stage_name (err e) =
    if has_message e
    then err (record e { message = codes "[" ++ (stage_name ++ (codes "] " ++ e.message)) })
    else err e
