-- ===== src/CppType/Same.antt =====
-- The comparison of types decides whether they are equal, and the output type of a branch.
use pipeline_c.Prelude.{
  ℕ, zero, suc, ◌≡◌, refl, sym, ◌∙◌, ap, ap₂, Bool, true, false, ◌&&◌, ==_iff, some, some-injective,
  arith,
}
use pipeline_c.CppType.{
  CppType, class, std_variant, fan_in_results, type_list, TypeList, nil, cons, same_as, same_types,
  nth, all_same, branch_output_type_or_variant, is_homogeneous, invocable_for_output_types,
}

and_left : (a b : Bool) → a && b ≡ true → a ≡ true
and_left a b h = ground arith

and_right : (a b : Bool) → a && b ≡ true → b ≡ true
and_right a b h = ground arith

mutual
  unfolding same_as same_types

  eq_of_same : (t u : CppType) → same_as t u ≡ true → t ≡ u
  eq_of_same (class m) (class n) h = ap class ((==_iff m n).0 h)
  eq_of_same (class m) (std_variant us) h = cc
  eq_of_same (class m) (fan_in_results us) h = cc
  eq_of_same (class m) (type_list us) h = cc
  eq_of_same (std_variant ts) (class n) h = cc
  eq_of_same (std_variant ts) (std_variant us) h = ap std_variant (eq_of_same_types ts us h)
  eq_of_same (std_variant ts) (fan_in_results us) h = cc
  eq_of_same (std_variant ts) (type_list us) h = cc
  eq_of_same (fan_in_results ts) (class n) h = cc
  eq_of_same (fan_in_results ts) (std_variant us) h = cc
  eq_of_same (fan_in_results ts) (fan_in_results us) h =
      ap fan_in_results (eq_of_same_types ts us h)
  eq_of_same (fan_in_results ts) (type_list us) h = cc
  eq_of_same (type_list ts) (class n) h = cc
  eq_of_same (type_list ts) (std_variant us) h = cc
  eq_of_same (type_list ts) (fan_in_results us) h = cc
  eq_of_same (type_list ts) (type_list us) h = ap type_list (eq_of_same_types ts us h)

  eq_of_same_types : (ts us : TypeList) → same_types ts us ≡ true → ts ≡ us
  eq_of_same_types nil nil h = refl
  eq_of_same_types nil (cons u us) h = cc
  eq_of_same_types (cons t ts) nil h = cc
  eq_of_same_types (cons t ts) (cons u us) h =
      ap₂ cons (eq_of_same t u (and_left _ _ h)) (eq_of_same_types ts us (and_right _ _ h))

pub same_as-eq : (t u : CppType) → same_as t u ≡ true → t ≡ u
same_as-eq t u h = eq_of_same t u h

all_same-nth :
    (t : CppType) (ts : TypeList) (i : ℕ) (u : CppType)
    → all_same t ts ≡ true
    → nth ts i ≡ some u
    → t ≡ u
unfolding all_same
all_same-nth t nil i u h e = cc
all_same-nth t (cons v vs) zero u h e = same_as-eq t v (and_left _ _ h) ∙ some-injective _ _ e
all_same-nth t (cons v vs) (suc i) u h e = all_same-nth t vs i u (and_right _ _ h) e

-- Where all outputs are of one type, this is the type of the branch.
pub homogeneous-output :
    (ts : TypeList) (i : ℕ) (u : CppType)
    → is_homogeneous ts ≡ true
    → nth ts i ≡ some u
    → branch_output_type_or_variant ts ≡ u
unfolding is_homogeneous branch_output_type_or_variant
homogeneous-output nil i u h e = cc
homogeneous-output (cons t ts) zero u h e = rw h (some-injective _ _ e)
homogeneous-output (cons t ts) (suc i) u h e = rw h (all_same-nth t ts i u h e)

pub heterogeneous-output :
    (ts : TypeList) → is_homogeneous ts ≡ false → branch_output_type_or_variant ts ≡ std_variant ts
unfolding is_homogeneous branch_output_type_or_variant
heterogeneous-output nil h = cc
heterogeneous-output (cons t ts) h = rw h refl

pub invocable-nth :
    (f : CppType → Bool) (ts : TypeList) (i : ℕ) (u : CppType)
    → invocable_for_output_types f ts ≡ true
    → nth ts i ≡ some u
    → f u ≡ true
unfolding invocable_for_output_types
invocable-nth f nil i u h e = cc
invocable-nth f (cons t ts) zero u h e = ap f (sym (some-injective _ _ e)) ∙ and_left _ _ h
invocable-nth f (cons t ts) (suc i) u h e = invocable-nth f ts i u (and_right _ _ h) e
