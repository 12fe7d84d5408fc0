-- ===== src/Policy/Tests.antt =====
-- The policies of a small pipeline: which lists `with` takes, and what they compile to.
use pipeline_c.Prelude.{ℕ, ◌≡◌, refl, true, some, none, List, [], ◌∷◌, ◌++◌}
use mathlib.Core.List.{Permᴰ}
use mathlib.Core.Option.{bind}
use pipeline_c.Stage.{atom, stage, construct_stages_per_run}
use pipeline_c.Sequential.Engine.{SequentialEngine}
use pipeline_c.Sample.{double}
use pipeline_c.ErrorPolicy.{with_ignore_errors}
use pipeline_c.Verbose.{with_verbose_diagnostics}
use pipeline_c.Policy.{
  Policy, errors, diagnostics, copying, other, ignoring, result, verbose, shared, is_error_policy,
  is_diagnostics_policy, is_error_policy_marker, is_diagnostics_policy_marker,
  is_copying_policy_marker, policy_axis_count, is_accepted, append_policies, first_policy_matching,
  pipeline_error_policy, pipeline_diagnostics_policy, error_wrapper, apply_error_policy, diagnose,
  apply_diagnostics_policy, compile, logged_engine,
}
use pipeline_c.Policy.Choice.{compile-Perm}

abbrev engine : SequentialEngine ℕ ℕ
engine = record { policy = construct_stages_per_run; stages = stage double ∷ []; observer = none }

abbrev early : List Policy
early = other 0 ∷ errors ignoring ∷ []

abbrev late : List Policy
late = diagnostics verbose ∷ copying shared ∷ []

-- Two error markers are refused, the same one twice as well.
two_markers : append_policies early (errors result ∷ []) ≡ none
unfolding append_policies is_accepted policy_axis_count is_error_policy_marker
    is_diagnostics_policy_marker is_copying_policy_marker
two_markers = refl

same_marker : append_policies early (errors ignoring ∷ []) ≡ none
unfolding append_policies is_accepted policy_axis_count is_error_policy_marker
    is_diagnostics_policy_marker is_copying_policy_marker
same_marker = refl

one_marker : append_policies early late ≡ some (early ++ late)
unfolding append_policies is_accepted policy_axis_count is_error_policy_marker
    is_diagnostics_policy_marker is_copying_policy_marker
one_marker = refl

compiled :
    compile (some (atom 0)) (early ++ late) engine
    ≡ some
        (logged_engine (some (with_ignore_errors (atom 0))) (with_verbose_diagnostics engine true))
unfolding compile apply_error_policy apply_diagnostics_policy diagnose error_wrapper bind
    first_policy_matching pipeline_error_policy pipeline_diagnostics_policy is_error_policy
    is_diagnostics_policy
compiled = refl

-- A pipeline without an output has no fallback.
no_fallback : compile none (early ++ late) engine ≡ none
unfolding compile apply_error_policy apply_diagnostics_policy diagnose error_wrapper bind
    first_policy_matching pipeline_error_policy pipeline_diagnostics_policy is_error_policy
    is_diagnostics_policy
no_fallback = refl

early_error : pipeline_error_policy early ≡ some (errors ignoring)
unfolding pipeline_error_policy first_policy_matching is_error_policy
early_error = refl

-- The same policies, the markers of the first call exchanged.
swapped :
    Permᴰ
      (early ++ late)
      ((errors ignoring ∷ other 0 ∷ diagnostics verbose ∷ []) ++ copying shared ∷ [])
swapped = Permᴰ.swap refl refl

compile-Perm_example :
    (all' : List Policy) × (append_policies
        (errors ignoring ∷ other 0 ∷ diagnostics verbose ∷ [])
        (copying shared ∷ [])
      ≡ some all')
    × (compile (some (atom 0)) (early ++ late) engine ≡ compile (some (atom 0)) all' engine)
compile-Perm_example =
    compile-Perm (some (atom 0)) engine early late
      (errors ignoring ∷ other 0 ∷ diagnostics verbose ∷ []) (copying shared ∷ []) (early ++ late)
      swapped one_marker
