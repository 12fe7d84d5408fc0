-- ===== src/CppType.antt =====
-- The types that the builder of include/pb/core/pipeline_state.hpp compares: classes, `std::variant`,
-- `fan_in_results` and the `type_list` of a join.
pub mod Same
use pipeline_c.Prelude.{
  ℕ, zero, suc, Bool, true, false, ◌&&◌, ◌==◌, Option, none, some, if◌then◌else◌,
}

mutual
  -- A `fan_in_results` has its case results' value types; a class is known by its number.
  pub data CppType : Type 0 where
    class : ℕ → CppType
    std_variant : TypeList → CppType
    fan_in_results : TypeList → CppType
    type_list : TypeList → CppType

  pub data TypeList : Type 0 where
    nil : TypeList
    cons : CppType → TypeList → TypeList

unfoldable mutual
  -- `std::same_as`
  pub same_as : CppType → CppType → Bool
  same_as (class m) (class n) = m == n
  same_as (class m) (std_variant us) = false
  same_as (class m) (fan_in_results us) = false
  same_as (class m) (type_list us) = false
  same_as (std_variant ts) (class n) = false
  same_as (std_variant ts) (std_variant us) = same_types ts us
  same_as (std_variant ts) (fan_in_results us) = false
  same_as (std_variant ts) (type_list us) = false
  same_as (fan_in_results ts) (class n) = false
  same_as (fan_in_results ts) (std_variant us) = false
  same_as (fan_in_results ts) (fan_in_results us) = same_types ts us
  same_as (fan_in_results ts) (type_list us) = false
  same_as (type_list ts) (class n) = false
  same_as (type_list ts) (std_variant us) = false
  same_as (type_list ts) (fan_in_results us) = false
  same_as (type_list ts) (type_list us) = same_types ts us

  pub same_types : TypeList → TypeList → Bool
  same_types nil nil = true
  same_types nil (cons u us) = false
  same_types (cons t ts) nil = false
  same_types (cons t ts) (cons u us) = same_as t u && same_types ts us

abbrev pub nth : TypeList → ℕ → Option CppType
nth nil i = none
nth (cons t ts) zero = some t
nth (cons t ts) (suc i) = nth ts i

-- `all_same<T, Rest...>`
unfoldable pub all_same : CppType → TypeList → Bool
all_same t nil = true
all_same t (cons u us) = same_as t u && all_same t us

-- `branch_output_type_or_variant`, which no empty list is given
unfoldable pub branch_output_type_or_variant : TypeList → CppType
branch_output_type_or_variant nil = std_variant nil
branch_output_type_or_variant (cons t ts) = if all_same t ts then t else std_variant (cons t ts)

-- `selected_branch_node::homogeneous`
unfoldable pub is_homogeneous : TypeList → Bool
is_homogeneous nil = true
is_homogeneous (cons t ts) = all_same t ts

unfoldable pub is_type_list : CppType → Bool
is_type_list (class n) = false
is_type_list (std_variant ts) = false
is_type_list (fan_in_results ts) = false
is_type_list (type_list ts) = true

-- `stage_invocable_for_output_types`, for a stage that can be called with some types
unfoldable pub invocable_for_output_types : (CppType → Bool) → TypeList → Bool
invocable_for_output_types is_invocable nil = true
invocable_for_output_types is_invocable (cons t ts) =
    is_invocable t && invocable_for_output_types is_invocable ts
