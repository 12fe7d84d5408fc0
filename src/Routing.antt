-- ===== src/Routing.antt =====
-- The choice of a route in include/pb/runtime/routing.hpp.
use pipeline_c.Prelude.{
  ℕ, zero, suc, ◌<◌, ◌≡◌, refl, sym, ap, Bool, true, false, some, List, [], ◌∷◌, ◌==◌, ==_iff,
  if◌then◌else◌, codes, Text, length, get_elem?, arith,
}
use pipeline_c.Error.{contract_violation, no_stage, Error}
use pipeline_c.Result.{Result, ok, err}

pub record RouteCaseRecord : Type 0 where
  pub index : ℕ
  pub key : Text
  pub name : Text

pub record RouteSelection : Type 0 where
  pub matched : Bool
  pub selected : RouteCaseRecord

abbrev routing_error : Text → Error
routing_error message = record {
  stage = no_stage;
  category = contract_violation;
  message = message;
}

-- The loop over the cases, and the error behind it.
unfoldable pub select_from : List RouteCaseRecord → List Bool → Result RouteSelection Error
select_from [] matches = err (routing_error (codes "no branch route matched"))
select_from (c ∷ cases) [] = err (routing_error (codes "no branch route matched"))
select_from (c ∷ cases) (b ∷ matches) =
    let rest = select_from cases matches in
    if b then ok (record { matched = true; selected = c }) else rest

unfoldable pub select_route : List RouteCaseRecord → List Bool → Result RouteSelection Error
select_route cases matches =
    if length matches == length cases
    then select_from cases matches
    else err (routing_error (codes "branch route predicate count mismatch"))

-- A case is the first one that matches.
pub record IsFirst (cases : List RouteCaseRecord) (matches : List Bool) (i : ℕ)
    (selection : RouteSelection) : Type 0 where
  pub matched : selection.matched ≡ true
  pub selected : get_elem? cases i ≡ some selection.selected
  pub matches_here : get_elem? matches i ≡ some true
  pub none_before : (j : ℕ) → j < i → get_elem? matches j ≡ some false

all_before_suc :
    (matches : List Bool) (i : ℕ)
    → ((j : ℕ) → j < i → get_elem? matches j ≡ some false)
    → (j : ℕ) → j < suc i
    → get_elem? (false ∷ matches) j ≡ some false
all_before_suc matches i h zero below = refl
all_before_suc matches i h (suc j) below = h j (omega arith)

select_from-IsFirst :
    (cases : List RouteCaseRecord) (matches : List Bool) (selection : RouteSelection)
    → select_from cases matches ≡ ok selection
    → (i : ℕ) × IsFirst cases matches i selection
unfolding select_from
select_from-IsFirst [] matches selection e = cc
select_from-IsFirst (c ∷ cases) [] selection e = cc
select_from-IsFirst (c ∷ cases) (true ∷ matches) selection e =
    let same : record { matched = true; selected = c } ≡ selection = cc in
    (
      zero,
      record {
        matched = sym (ap (λ s. s.matched) same);
        selected = ap (λ s. some s.selected) same;
        matches_here = refl;
        none_before = λ j h. absurd (omega arith);
      },
    )
select_from-IsFirst (c ∷ cases) (false ∷ matches) selection e =
    let (i, first) = select_from-IsFirst cases matches selection e in
    (
      suc i,
      record {
        matched = first.matched;
        selected = first.selected;
        matches_here = first.matches_here;
        none_before = all_before_suc matches i first.none_before;
      },
    )

select_from-finds :
    (cases : List RouteCaseRecord) (matches : List Bool) (i : ℕ)
    → length matches ≡ length cases
    → get_elem? matches i ≡ some true
    → (selection : RouteSelection) × (select_from cases matches ≡ ok selection)
unfolding select_from
select_from-finds [] [] i same e = cc
select_from-finds [] (b ∷ matches) i same e = absurd (omega arith)
select_from-finds (c ∷ cases) [] i same e = cc
select_from-finds (c ∷ cases) (true ∷ matches) i same e = (_, refl)
select_from-finds (c ∷ cases) (false ∷ matches) zero same e = cc
select_from-finds (c ∷ cases) (false ∷ matches) (suc i) same e =
    select_from-finds cases matches i (omega arith) e

-- Where there is a predicate's answer for each case and one of them is yes, a route is selected: that of
-- the first case whose answer is yes.
pub select_route-IsFirst :
    (cases : List RouteCaseRecord) (matches : List Bool) (i : ℕ)
    → length matches ≡ length cases
    → get_elem? matches i ≡ some true
    → (selection : RouteSelection) × (select_route cases matches ≡ ok selection)
      × (k : ℕ) × IsFirst cases matches k selection
unfolding select_route
select_route-IsFirst cases matches i same e =
    let (selection, found) = select_from-finds cases matches i same e in
    let counted : (length matches == length cases) ≡ true =
      (==_iff (length matches) (length cases)).1 same in
    let (k, first) = select_from-IsFirst cases matches selection found in
    (selection, rw counted found, k, first)
