-- ===== src/Registry.antt =====
-- The table of named pipelines of include/pb/tooling/cli_registry.hpp: a pipeline is registered with its
-- exporters, and rendered by its name.
pub mod Lookup
mod Tests
use pipeline_c.Prelude.{
  Bool, true, false, Option, none, some, List, [], ◌∷◌, ◌++◌, ◌==◌, if◌then◌else◌, codes, Text,
  text_eq, is_empty, length, ℕ,
}

-- What `add<Pipeline>` takes of the pipeline: its three exports.
pub record Exports : Type 0 where
  pub dot_of : Text → Text
  pub json : Text
  pub text : Text

-- `pipeline_entry`
pub record PipelineEntry : Type 0 where
  pub name : Text
  pub topology : Text
  pub description : Text
  pub to_dot : Text → Text
  pub to_json : Text
  pub to_text : Text
  pub graph_name : Text

-- `pipeline_registry`, its entries in the order of their registration
pub record PipelineRegistry : Type 0 where
  pub entries : List PipelineEntry

unfoldable pub empty_registry : PipelineRegistry
empty_registry = record { entries = [] }

unfoldable pub default_graph_name : Text → Text
default_graph_name [] = []
default_graph_name (ch ∷ name) =
    let rest = default_graph_name name in if ch == b'-' then b'_' ∷ rest else ch ∷ rest

unfoldable pub add :
    Exports → (name topology description graph_name : Text) → PipelineRegistry → PipelineRegistry
add exports name topology description graph_name registry = record {
  entries =
      registry.entries
      ++ record {
        name = name;
        topology = topology;
        description = description;
        to_dot = exports.dot_of;
        to_json = exports.json;
        to_text = exports.text;
        graph_name = if is_empty graph_name then default_graph_name name else graph_name;
      }
        ∷ [];
}

unfoldable pub find_entry : Text → List PipelineEntry → Option PipelineEntry
find_entry name [] = none
find_entry name (entry ∷ entries) =
    let rest = find_entry name entries in if text_eq entry.name name then some entry else rest

unfoldable pub find : Text → PipelineRegistry → Option PipelineEntry
find name registry = find_entry name registry.entries

unfoldable pub contains : Text → PipelineRegistry → Bool
contains name registry = elim (find name registry) [ none ↦ false | some entry ↦ true ]

unfoldable pub render_entry : Option PipelineEntry → (format : Text) → Text
render_entry none format = []
render_entry (some entry) format =
    if text_eq format (codes "dot")
    then entry.to_dot entry.graph_name
    else if text_eq format (codes "json")
    then entry.to_json
    else if text_eq format (codes "text")
    then entry.to_text
    else []

unfoldable pub render : (name format : Text) → PipelineRegistry → Text
render name format registry = render_entry (find name registry) format

unfoldable pub size : PipelineRegistry → ℕ
size registry = length registry.entries
