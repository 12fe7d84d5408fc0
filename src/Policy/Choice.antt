-- ===== src/Policy/Choice.antt =====
-- What `compile` of include/pb/runtime/sequential.hpp chooses for the policies that `with` accepts.
use pipeline_c.Prelude.{
  ℕ, ◌≤◌, ◌≡◌, refl, sym, ◌∙◌, ap, subst, Bool, true, ◌&&◌, Option, none, some, some-injective,
  List, ◌++◌, leb, arith,
}
use mathlib.Core.List.{Permᴰ}
use mathlib.Core.Option.{bind, none-ne-some}
use pipeline_c.ErrorPolicy.{Wrapper}
use pipeline_c.Stage.{Value}
use pipeline_c.Sequential.Engine.{SequentialEngine, try_run}
use pipeline_c.Verbose.Transparent.{verbose_try_run-transparent}
use pipeline_c.Policy.{
  Policy, errors, diagnostics, copying, other, verbose, quiet, is_error_policy,
  is_diagnostics_policy, is_copying_policy, is_error_policy_marker, is_diagnostics_policy_marker,
  is_copying_policy_marker, policy_axis_count, is_accepted, append_policies, error_wrapper,
  pipeline_error_policy, pipeline_diagnostics_policy, pipeline_copying_policy, apply_error_policy,
  diagnose, apply_diagnostics_policy, compile, CompiledEngine, compiled_try_run,
}
use pipeline_c.Policy.Axis.{
  policy_axis_count-Perm, first_policy_matching-Perm, first_policy_matching_kept,
}

-- A list of policies that has at most one marker for each axis.
record IsSingle (policies : List Policy) : Type 0 where
  error_count : policy_axis_count is_error_policy policies ≤ 1
  diagnostics_count : policy_axis_count is_diagnostics_policy policies ≤ 1
  copying_count : policy_axis_count is_copying_policy policies ≤ 1

three_true : (a b c : Bool) → a && (b && c) ≡ true → (a ≡ true) × (b ≡ true) × (c ≡ true)
three_true a b c h = ground arith

at_most : (n bound : ℕ) → leb n bound ≡ true → n ≤ bound
at_most n bound h = ground arith

-- The two declarations of the markers of an axis agree, so what `with` counts is what is chosen from.
is_accepted-IsSingle : (ps : List Policy) → is_accepted ps ≡ true → IsSingle ps
unfolding is_accepted is_error_policy is_diagnostics_policy is_copying_policy is_error_policy_marker
    is_diagnostics_policy_marker is_copying_policy_marker
is_accepted-IsSingle ps h =
    let (e, d, c) = three_true _ _ _ h in
    record {
      error_count = at_most _ 1 e;
      diagnostics_count = at_most _ 1 d;
      copying_count = at_most _ 1 c;
    }

append_policies-eq :
    (ps new all : List Policy)
    → append_policies ps new ≡ some all
    → (is_accepted (ps ++ new) ≡ true) × (ps ++ new ≡ all)
unfolding append_policies
append_policies-eq ps new all accepted = ground arith

append_policies-accepts :
    (ps new : List Policy)
    → is_accepted (ps ++ new) ≡ true
    → append_policies ps new ≡ some (ps ++ new)
unfolding append_policies
append_policies-accepts ps new h = ground arith

is_accepted-Perm : {ps qs : List Policy} → Permᴰ ps qs → is_accepted ps ≡ is_accepted qs
unfolding is_accepted
is_accepted-Perm perm =
    let e = policy_axis_count-Perm is_error_policy_marker perm in
    let d = policy_axis_count-Perm is_diagnostics_policy_marker perm in
    let c = policy_axis_count-Perm is_copying_policy_marker perm in rw (e, d, c) refl

pub data Axis : Type 0 where
  error_axis diagnostics_axis copying_axis : Axis

-- The marker of an axis that a list of policies carries.
abbrev pub pipeline_policy : Axis → List Policy → Option Policy
pipeline_policy error_axis = pipeline_error_policy
pipeline_policy diagnostics_axis = pipeline_diagnostics_policy
pipeline_policy copying_axis = pipeline_copying_policy

kept :
    (axis : Axis) (ps new : List Policy) (m : Policy)
    → IsSingle (ps ++ new)
    → pipeline_policy axis ps ≡ some m
    → (pipeline_policy axis (ps ++ new) ≡ some m) × (pipeline_policy axis new ≡ none)
unfolding pipeline_error_policy pipeline_diagnostics_policy pipeline_copying_policy
kept error_axis ps new m single found =
    first_policy_matching_kept is_error_policy ps new m single.error_count found
kept diagnostics_axis ps new m single found =
    first_policy_matching_kept is_diagnostics_policy ps new m single.diagnostics_count found
kept copying_axis ps new m single found =
    first_policy_matching_kept is_copying_policy ps new m single.copying_count found

-- If `with` accepts policies for a pipeline that carries a marker of an axis, then the pipeline that
-- it returns carries the same marker of that axis, and the added policies have none of it.
pub append_policies_kept :
    (axis : Axis) (ps new all : List Policy) (m : Policy)
    → append_policies ps new ≡ some all
    → pipeline_policy axis ps ≡ some m
    → (pipeline_policy axis all ≡ some m) × (pipeline_policy axis new ≡ none)
append_policies_kept axis ps new all m accepted found =
    let (h, e) = append_policies-eq ps new all accepted in
    let single = is_accepted-IsSingle (ps ++ new) h in
    let (same, fresh) = kept axis ps new m single found in
    (subst (λ c. pipeline_policy axis c ≡ some m) e same, fresh)

module _ {S A : Type 0} (output : Option (Value A)) (engine : SequentialEngine S A) where
  compile_choice :
      (ps qs : List Policy)
      → pipeline_error_policy ps ≡ pipeline_error_policy qs
      → pipeline_diagnostics_policy ps ≡ pipeline_diagnostics_policy qs
      → compile output ps engine ≡ compile output qs engine
  unfolding compile apply_error_policy apply_diagnostics_policy
  compile_choice ps qs e d = rw (e, d) refl

  -- Neither the order of the policies nor how they are spread over calls of `with` matters: if `with`
  -- accepts some, then it accepts the same policies in any order, and `compile` makes the same
  -- engine of them.
  pub compile-Perm :
      (ps new qs more all : List Policy)
      → Permᴰ (ps ++ new) (qs ++ more)
      → append_policies ps new ≡ some all
      → (all' : List Policy) × (append_policies qs more ≡ some all')
        × (compile output all engine ≡ compile output all' engine)
  unfolding pipeline_error_policy pipeline_diagnostics_policy
  compile-Perm ps new qs more all perm accepted =
      let (h, e) = append_policies-eq ps new all accepted in
      let single = is_accepted-IsSingle (ps ++ new) h in
      (
        qs ++ more,
        append_policies-accepts qs more (sym (is_accepted-Perm perm) ∙ h),
        ap (λ c. compile output c engine) (sym e)
            ∙ compile_choice (ps ++ new) (qs ++ more)
                (first_policy_matching-Perm is_error_policy perm single.error_count)
                (first_policy_matching-Perm is_diagnostics_policy perm single.diagnostics_count),
      )

  diagnose-try_run :
      (d : Option Policy) (wrapper : Option (Wrapper (Value A))) (input : Value A)
      → compiled_try_run (diagnose d (wrapper, engine)) input ≡ (try_run engine input).0
  unfolding diagnose compiled_try_run
  diagnose-try_run (some (diagnostics verbose)) wrapper input =
      (verbose_try_run-transparent engine input true).0
  diagnose-try_run (some (diagnostics quiet)) wrapper input = refl
  diagnose-try_run (some (errors marker)) wrapper input = refl
  diagnose-try_run (some (copying marker)) wrapper input = refl
  diagnose-try_run (some (other tag)) wrapper input = refl
  diagnose-try_run none wrapper input = refl

  built-try_run :
      (w : Option (Option (Wrapper (Value A)))) (d : Option Policy) (compiled : CompiledEngine S A)
      (input : Value A)
      → bind (bind w (λ wrapper. some (wrapper, engine))) (λ wrapped. some (diagnose d wrapped))
        ≡ some compiled
      → compiled_try_run compiled input ≡ (try_run engine input).0
  unfolding bind
  built-try_run none d compiled input h = absurd (none-ne-some compiled h)
  built-try_run (some wrapper) d compiled input h =
      ap (λ c. compiled_try_run c input) (sym (some-injective _ _ h))
      ∙ diagnose-try_run d wrapper input

  -- If a pipeline compiles, then whatever policies it carries, `try_run` of the compiled engine gives
  -- the result of the engine without policies.
  pub compiled_try_run-compile :
      (ps : List Policy) (compiled : CompiledEngine S A) (input : Value A)
      → compile output ps engine ≡ some compiled
      → compiled_try_run compiled input ≡ (try_run engine input).0
  unfolding compile apply_error_policy apply_diagnostics_policy
  compiled_try_run-compile ps compiled input h =
      built-try_run (error_wrapper output (pipeline_error_policy ps))
        (pipeline_diagnostics_policy ps) compiled input h
