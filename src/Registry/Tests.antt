-- ===== src/Registry/Tests.antt =====
-- A table of two pipelines (include/pb/tooling/cli_registry.hpp).
use pipeline_c.Prelude.{◌≡◌, refl, false, [], ◌∷◌, List, codes, Text, text_eq}
use pipeline_c.Registry.{
  add, empty_registry, default_graph_name, find, find_entry, contains, render, render_entry,
}
use pipeline_c.Registry.Lookup.{Registration, add_all}

abbrev registration : Text → Registration
registration document = record {
  exports = record { dot_of = λ graph. graph; json = document; text = [] };
  topology = codes "linear";
  description = [];
  graph_name = [];
}

abbrev items : List (Text × Registration)
items =
    (codes "order-linear", registration (codes "{1}"))
    ∷ (codes "order-branch", registration (codes "{2}"))
    ∷ (codes "order-linear", registration (codes "{3}"))
    ∷ []

first_of_two :
    render (codes "order-linear") (codes "json") (add_all items empty_registry) ≡ codes "{1}"
unfolding render render_entry find find_entry add empty_registry text_eq
first_of_two = refl

default_name :
    render (codes "order-branch") (codes "dot") (add_all items empty_registry)
    ≡ codes "order_branch"
unfolding render render_entry find find_entry add empty_registry text_eq default_graph_name
default_name = refl

unknown_format : render (codes "order-branch") (codes "svg") (add_all items empty_registry) ≡ []
unfolding render render_entry find find_entry add empty_registry text_eq
unknown_format = refl

unknown_name : contains (codes "other") (add_all items empty_registry) ≡ false
unfolding contains find find_entry add empty_registry text_eq
unknown_name = refl
