-- ===== src/Registry/Lookup.antt =====
-- Lookups by name in the table of include/pb/tooling/cli_registry.hpp.
use pipeline_c.Prelude.{
  ◌+◌, ◌≡◌, refl, ◌∙◌, ap, Bool, true, false, Option, none, some, List, [], ◌∷◌, ◌++◌,
  if◌then◌else◌, Bool-cases, inl, inr, codes, Text, text_eq, length, length-append, arith,
}
use pipeline_c.Registry.{
  Exports, PipelineEntry, PipelineRegistry, empty_registry, add, find_entry, find, render_entry,
  render, size,
}

-- A registration: the arguments of `add`, without the name.
pub record Registration : Type 0 where
  pub exports : Exports
  pub topology : Text
  pub description : Text
  pub graph_name : Text

-- Registrations, one after the other.
abbrev pub add_all : List (Text × Registration) → PipelineRegistry → PipelineRegistry
add_all [] registry = registry
add_all ((name, r) ∷ items) registry =
    add_all items (add r.exports name r.topology r.description r.graph_name registry)

-- The registration that a name stands for: the first one.
abbrev pub first_named : Text → List (Text × Registration) → Option Registration
first_named name [] = none
first_named name ((other, r) ∷ items) =
    if text_eq other name then some r else first_named name items

-- What the registration under a name renders as JSON; no text under a name that is not registered.
abbrev pub json_of : Option Registration → Text
json_of none = []
json_of (some r) = r.exports.json

or_else : {B : Type 0} → Option B → Option B → Option B
or_else none other = other
or_else (some b) other = some b

find_entry-append :
    (name : Text) (xs ys : List PipelineEntry)
    → find_entry name (xs ++ ys) ≡ or_else (find_entry name xs) (find_entry name ys)
unfolding find_entry or_else
find_entry-append name [] ys = refl
find_entry-append name (x ∷ xs) ys = elim (Bool-cases (text_eq x.name name)) [
  | inl here ↦ rw here refl
  | inr other ↦ rw other (find_entry-append name xs ys)
]

json_of_entry : Option PipelineEntry → Text → Text
json_of_entry none other = other
json_of_entry (some entry) other = entry.to_json

later_entry :
    (found : Option PipelineEntry) (b : Bool) (new : PipelineEntry) (r : Registration)
    (others : Option Registration)
    → new.to_json ≡ r.exports.json
    → json_of_entry (or_else found (if b then some new else none)) (json_of others)
      ≡ json_of_entry found (json_of (if b then some r else others))
unfolding json_of_entry or_else
later_entry (some entry) b new r others e = refl
later_entry none true new r others e = e
later_entry none false new r others e = refl

find-add_all :
    (name : Text) (items : List (Text × Registration)) (registry : PipelineRegistry)
    → json_of_entry (find name (add_all items registry)) []
      ≡ json_of_entry (find name registry) (json_of (first_named name items))
unfolding find add find_entry
find-add_all name [] registry = refl
find-add_all name ((other, r) ∷ items) registry =
    find-add_all name items (add r.exports other r.topology r.description r.graph_name registry)
    ∙ ap (λ found. json_of_entry found (json_of (first_named name items)))
        (find_entry-append name registry.entries _)
    ∙ later_entry (find_entry name registry.entries) (text_eq other name) _ r
        (first_named name items) refl

size-add_all :
    (items : List (Text × Registration)) (registry : PipelineRegistry)
    → size (add_all items registry) ≡ size registry + length items
unfolding size add
size-add_all [] registry = omega arith
size-add_all ((name, r) ∷ items) registry =
    let rest =
      size-add_all items (add r.exports name r.topology r.description r.graph_name registry) in
    omega (arith, length-append registry.entries)

render-json_of_entry :
    (found : Option PipelineEntry) → render_entry found (codes "json") ≡ json_of_entry found []
unfolding render_entry json_of_entry text_eq
render-json_of_entry none = refl
render-json_of_entry (some entry) = refl

-- After any registrations in an empty table, a name renders as JSON to the document of the first
-- pipeline that was registered under it, and to no text if there is none; the table has as many entries
-- as there were registrations.
pub render-add_all :
    (name : Text) (items : List (Text × Registration))
    → (render name (codes "json") (add_all items empty_registry) ≡ json_of (first_named name items))
      × (size (add_all items empty_registry) ≡ length items)
unfolding render empty_registry size find find_entry json_of_entry
render-add_all name items = (
  render-json_of_entry (find name (add_all items empty_registry))
      ∙ find-add_all name items empty_registry,
  size-add_all items empty_registry ∙ omega arith,
)
