-- ===== src/Sequential/Compose.antt =====
-- A pipeline in two parts runs its first part and then, unless that failed, its second.
use pipeline_c.Prelude.{ℕ, suc, ◌+◌, ◌≡◌, refl, ap, ◌∙◌, List, [], ◌∷◌, ◌++◌, length, arith}
use pipeline_c.Error.{Error}
use pipeline_c.Result.{Result, ok, err}
use pipeline_c.Observer.{Run, Sink, pure, ◌>>=◌}
use pipeline_c.Stage.{Value, Node, StageStoragePolicy}
use pipeline_c.Sequential.Engine.{continue_run, try_run_after_result}

module _ {S A : Type 0} (policy : StageStoragePolicy) where
  -- The second part, behind a first one that left the stages `front` and the result `r`.
  pub run_rest :
      (stage_index : ℕ) (rest : List (Node S A))
      → (front : List (Node S A)) → Result (Value A) Error
      → Run (Result (Value A) Error × List (Node S A))
  run_rest stage_index rest front (err e) = pure (err e, front ++ rest)
  run_rest stage_index rest front (ok v) = do
    (r, rest') ← try_run_after_result policy stage_index rest v
    pure (r, front ++ rest')

  run_rest-cons :
      (j : ℕ) (ms : List (Node S A)) (node : Node S A) (front : List (Node S A))
      (r : Result (Value A) Error) (s : Sink)
      → (run_rest j ms front r >>= λ x. pure (x.0, node ∷ x.1)) s ≡ run_rest j ms (node ∷ front) r s
  unfolding run_rest ◌>>=◌ pure
  run_rest-cons j ms node front (err e) s = refl
  run_rest-cons j ms node front (ok v) s = refl

  continue_run-append :
      (j : ℕ) (node : Node S A) (rest ms : List (Node S A))
      (next both : Value A → Run (Result (Value A) Error × List (Node S A)))
      → ((v : Value A) (s : Sink) → both v s ≡ (next v >>= λ x. run_rest j ms x.1 x.0) s)
      → (r : Result (Value A) Error) (s : Sink)
      → continue_run node (rest ++ ms) both r s
        ≡ (continue_run node rest next r >>= λ x. run_rest j ms x.1 x.0) s
  unfolding continue_run run_rest ◌>>=◌ pure
  continue_run-append j node rest ms next both h (err e) s = refl
  continue_run-append j node rest ms next both h (ok v) s =
      ap (λ x. ((x.0.0, node ∷ x.0.1), x.1)) (h v s)
      ∙ run_rest-cons j ms node (next v s).0.1 (next v s).0.0 (next v s).1

  -- A run over `ns` and then `ms` is the run over `ns`, and then, if it gave a value, the run over
  -- `ms` from that value with the stage numbers going on; if `ns` failed, the result is its error
  -- and no stage of `ms` is called. The stages left and the events sent are those of the parts.
  pub try_run-append :
      (i j : ℕ) (ns ms : List (Node S A)) (v : Value A) (s : Sink)
      → j ≡ i + length ns
      → try_run_after_result policy i (ns ++ ms) v s
        ≡ (try_run_after_result policy i ns v >>= λ x. run_rest j ms x.1 x.0) s
  unfolding try_run_after_result run_rest ◌>>=◌ pure
  try_run-append i j [] ms v s h = ap (λ k. try_run_after_result policy k ms v s) (omega arith)
  try_run-append i j (n ∷ ns) ms v s h =
      continue_run-append j _ ns ms (try_run_after_result policy (suc i) ns)
        (try_run_after_result policy (suc i) (ns ++ ms))
        (λ w t. try_run-append (suc i) j ns ms w t (omega arith)) _ _
