-- ===== src/Sequential/Verdict.antt =====
-- The value that a stage call comes to, apart from the events that it sends: a specification of the
-- `try` blocks of include/pb/runtime/sequential.hpp.
use pipeline_c.Prelude.{◌≡◌, refl}
use pipeline_c.Error.{StageId, Error}
use pipeline_c.Result.{Result, ok, err, UserError, to_result}
use pipeline_c.Observer.{Sink, pure, ◌>>=◌}
use pipeline_c.Stage.{Outcome, returned, thrown, thrown_unknown}
use pipeline_c.Sequential.Calls.{
  normalize_stage_error, exception_error, unknown_exception_error, conclude, settle,
}

abbrev pub normalized : {B : Type 0} → StageId → Result B UserError → Result B Error
normalized id (ok b) = ok b
normalized id (err e) = err (normalize_stage_error id e)

abbrev pub verdict : {B : Type 0} → StageId → Outcome B → Result B Error
verdict id (returned r) = normalized id (to_result r)
verdict id (thrown what) = err (exception_error id what)
verdict id thrown_unknown = err (unknown_exception_error id)

conclude-eq-normalized :
    {B : Type 0} (id : StageId) (r : Result B UserError) (s : Sink)
    → (conclude id r s).0 ≡ normalized id r
unfolding conclude ◌>>=◌ pure
conclude-eq-normalized id (ok b) s = refl
conclude-eq-normalized id (err e) s = refl

pub settle-eq-verdict :
    {B : Type 0} (id : StageId) (o : Outcome B) (s : Sink) → (settle id o s).0 ≡ verdict id o
unfolding settle ◌>>=◌ pure
settle-eq-verdict id (returned r) s = conclude-eq-normalized id (to_result r) s
settle-eq-verdict id (thrown what) s = refl
settle-eq-verdict id thrown_unknown s = refl
