-- ===== src/Sample.antt =====
-- A fan-in of three cases for the tests of the parts that build on include/pb/runtime/sequential.hpp.
pub mod Pipelines
use pipeline_c.Prelude.{ℕ, ◌*◌, Bool, true, [], ◌∷◌, codes, Text, ltb, length}
use pipeline_c.Error.{StageId}
use pipeline_c.Result.{plain}
use pipeline_c.Stage.{
  Value, atom, variant, results, Outcome, returned, thrown, Callable, BranchNode,
}

abbrev pub number : Value ℕ → ℕ
number (atom n) = n
number (variant i n) = n
number (results slots) = length slots

abbrev pub callable : {B : Type 0} → Text → (ℕ → Outcome B) → Callable ℕ ℕ B
callable name f = record {
  key = name;
  name = name;
  initial = 0;
  call = λ s input. (f (number input), s);
  object = 0;
}

abbrev pub always : Callable ℕ ℕ Bool
always = callable (codes "always") (λ n. returned (plain true))

abbrev pub is_small : Callable ℕ ℕ Bool
is_small = callable (codes "small") (λ n. returned (plain (ltb n 10)))

abbrev pub double : Callable ℕ ℕ ℕ
double = callable (codes "double") (λ n. returned (plain (n * 2)))

abbrev pub throwing : Callable ℕ ℕ ℕ
throwing = callable (codes "throwing") (λ n. thrown (codes "boom"))

abbrev pub node : BranchNode ℕ ℕ
node = record {
  homogeneous = true;
  cases =
      record { predicate = always; stage = double }
      ∷ record { predicate = is_small; stage = double }
      ∷ record { predicate = always; stage = throwing }
      ∷ [];
}

abbrev pub fan_in_id : StageId
fan_in_id = record { key = codes "fan_in"; name = codes "fan_in" }
