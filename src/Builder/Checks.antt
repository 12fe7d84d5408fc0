-- ===== src/Builder/Checks.antt =====
-- What a check that did not fail tells (the assertions of include/pb/core/pipeline_state.hpp).
use pipeline_c.Prelude.{
  ◌≡◌, refl, ◌⊎◌, inl, inr, Bool, true, false, ◌&&◌, ◌||◌, none, some, some-injective,
  if◌then◌else◌,
}

pub if_some :
    {B : Type 0} (b : Bool) (x y : B) → (if b then some x else none) ≡ some y → (b ≡ true) × (x ≡ y)
if_some true x y e = (refl, some-injective _ _ e)
if_some false x y e = cc

pub or_cases : (a b : Bool) → a || b ≡ true → (a ≡ true) ⊎ (b ≡ true)
or_cases true b h = inl refl
or_cases false b h = inr h

pub and_cases : (a b : Bool) → a && b ≡ true → (a ≡ true) × (b ≡ true)
and_cases true b h = (refl, h)
and_cases false b h = cc
