-- ===== src/ExportJson/RoundTrip.antt =====
-- The graph documents of include/pb/core/export_json.hpp hold what the descriptor holds: a reader gives
-- it back.
use pipeline_c.Prelude.{
  ℕ, ◌<◌, ◌≤◌, ◌≡◌, refl, sym, ◌∙◌, ap, Bool, true, false, some, List, [], ◌∷◌, ◌++◌, append_assoc,
  is_empty, decimal, ◌==◌, if◌then◌else◌, Bool-cases, inl, inr, codes, Text, text_eq, expect, arith,
  map, length,
}
use pipeline_c.Json.{read_string}
use pipeline_c.Json.Graph.{json_string, escape_bytes, escape_byte}
use pipeline_c.Descriptor.Records.{
  DescriptorTopology, linear, branch, fan_in, DescriptorStageRecord, DescriptorBranchCaseRecord,
  DescriptorEdgeRecord, DescriptorView,
}
use pipeline_c.ExportJson.{
  joined, topology_name, branch_case_label_or_index, branch_case_json, matching_cases_json,
  branch_cases_json, stage_kind_json, graph_stage_json, graph_edge_json, graph_json,
}
use pipeline_c.ExportJson.Spec.{
  shown_label, case_doc, edge_doc, cases_at, cases_doc, stage_doc, graph_doc,
}
use pipeline_c.ExportJson.Items.{read_number-decimal, read_graph_string, read_items-joined}
use pipeline_c.ExportJson.Reader.{
  read_items, read_case, read_cases, read_kind_cases, read_stage, read_edge, read_topology,
  read_graph,
}

shown :
    (label : Text) (number : ℕ)
    → (if is_empty label then decimal number else label) ≡ shown_label label number
shown [] number = refl
shown (ch ∷ label) number = refl

branch_case_label_or_index-shown_label :
    (c : DescriptorBranchCaseRecord)
    → branch_case_label_or_index c ≡ shown_label c.case_label c.case_index
unfolding branch_case_label_or_index
branch_case_label_or_index-shown_label c = shown c.case_label c.case_index

read_topology-topology_name :
    (topology : DescriptorTopology) → read_topology (topology_name topology) ≡ some topology
unfolding read_topology topology_name text_eq
read_topology-topology_name linear = refl
read_topology-topology_name branch = refl
read_topology-topology_name fan_in = refl

read_case-json :
    (c : DescriptorBranchCaseRecord) (rest : Text)
    → read_case (branch_case_json c ++ rest) ≡ some (case_doc c, rest)
unfolding read_case branch_case_json expect
read_case-json c rest =
    simp
      (append_assoc, read_number-decimal, read_graph_string, branch_case_label_or_index-shown_label)

read_edge-json :
    (edge : DescriptorEdgeRecord) (rest : Text)
    → read_edge (graph_edge_json edge ++ rest) ≡ some (edge_doc edge, rest)
unfolding read_edge graph_edge_json expect
read_edge-json edge rest = simp (append_assoc, read_number-decimal, read_graph_string)

matching_cases_json-joined :
    (index : ℕ) (first : Bool) (cases : List DescriptorBranchCaseRecord)
    → matching_cases_json index first cases ≡ joined branch_case_json first (cases_at index cases)
unfolding matching_cases_json joined
matching_cases_json-joined index first [] = refl
matching_cases_json-joined index first (c ∷ cases) =
    elim (Bool-cases (c.branch_stage_index == index)) [
      | inl at_index ↦ rw at_index (
          ap (λ t. (if first then [] else codes ",") ++ (branch_case_json c ++ t))
            (matching_cases_json-joined index false cases))
      | inr other ↦ rw other (matching_cases_json-joined index first cases)
    ]

length-cases_at :
    (index : ℕ) (cases : List DescriptorBranchCaseRecord)
    → length (cases_at index cases) ≤ length cases
length-cases_at index [] = omega arith
length-cases_at index (c ∷ cases) = ground (arith, length-cases_at index cases)

branch_case_json-opens :
    (c : DescriptorBranchCaseRecord) → (body : Text) × (branch_case_json c ≡ 123 ∷ body)
unfolding branch_case_json
branch_case_json-opens c = (_, refl)

graph_edge_json-opens :
    (e : DescriptorEdgeRecord) → (body : Text) × (graph_edge_json e ≡ 123 ∷ body)
unfolding graph_edge_json
graph_edge_json-opens e = (_, refl)

graph_stage_json-opens :
    (view : DescriptorView) (s : DescriptorStageRecord)
    → (body : Text) × (graph_stage_json view s ≡ 123 ∷ body)
unfolding graph_stage_json
graph_stage_json-opens view s = (_, refl)

-- The kind that the writer prints as a literal.
stage_literal : json_string (codes "stage") ≡ codes "\"stage\""
unfolding json_string escape_bytes escape_byte
stage_literal = refl

read_stage_literal :
    (rest : Text) → read_string (codes "\"stage\"" ++ rest) ≡ some (codes "stage", rest)
read_stage_literal rest =
    ap (λ t. read_string (t ++ rest)) (sym stage_literal) ∙ read_graph_string (codes "stage") rest

module _ (view : DescriptorView) (fuel : ℕ) (enough : length view.branch_cases < fuel) where
  read_cases-json :
      (index : ℕ) (rest : Text)
      → read_cases fuel (branch_cases_json view index ++ rest) ≡ some ((cases_doc view) index, rest)
  unfolding read_cases branch_cases_json expect
  read_cases-json index rest =
      let few = length-cases_at index view.branch_cases in
      ap (read_items read_case fuel true) (
        append_assoc (matching_cases_json index true view.branch_cases) (93 ∷ []) rest
        ∙ ap (λ t. t ++ 93 ∷ rest) (matching_cases_json-joined index true view.branch_cases))
      ∙ read_items-joined read_case branch_case_json case_doc read_case-json branch_case_json-opens
          fuel true (cases_at index view.branch_cases) rest (omega arith)

  read_stage-at :
      (s : DescriptorStageRecord) (topology : DescriptorTopology) (rest : Text)
      → read_stage fuel (graph_stage_json view (record s { topology = topology }) ++ rest)
        ≡ some ((stage_doc view) (record s { topology = topology }), rest)
  unfolding read_stage graph_stage_json stage_kind_json expect read_kind_cases text_eq
  read_stage-at s linear rest =
      simp (append_assoc, read_number-decimal, read_graph_string, read_stage_literal)
  read_stage-at s branch rest =
      simp (append_assoc, read_number-decimal, read_graph_string, read_cases-json)
  read_stage-at s fan_in rest =
      simp (append_assoc, read_number-decimal, read_graph_string, read_cases-json)

  read_stage-json :
      (s : DescriptorStageRecord) (rest : Text)
      → read_stage fuel (graph_stage_json view s ++ rest) ≡ some ((stage_doc view) s, rest)
  read_stage-json s rest = read_stage-at s s.topology rest

  read_stages :
      (rest : Text)
      → length view.stages < fuel
      → read_items
          (read_stage fuel)
          fuel
          true
          (joined (graph_stage_json view) true view.stages ++ 93 ∷ rest)
        ≡ some (map (stage_doc view) view.stages, rest)
  read_stages rest h =
      read_items-joined (read_stage fuel) (graph_stage_json view) (stage_doc view) read_stage-json
        (graph_stage_json-opens view) fuel true view.stages rest h

  read_edges :
      (rest : Text)
      → length view.edges < fuel
      → read_items read_edge fuel true (joined graph_edge_json true view.edges ++ 93 ∷ rest)
        ≡ some (map edge_doc view.edges, rest)
  read_edges rest h =
      read_items-joined read_edge graph_edge_json edge_doc read_edge-json graph_edge_json-opens fuel
        true view.edges rest h

  -- The JSON document of a graph, whatever stands behind it, is read back to what the descriptor holds:
  -- the topology, the counts, every stage with its kind and the cases of its branch, and every edge, in
  -- their order; a case without a label is read with its number as the label. The reader needs more
  -- fuel than there are stages, edges and cases.
  pub read_graph-graph_json :
      (rest : Text)
      → length view.stages < fuel
      → length view.edges < fuel
      → read_graph fuel (graph_json view ++ rest) ≡ some ((graph_doc view), rest)
  unfolding read_graph graph_json expect
  read_graph-graph_json rest few_stages few_edges = simp (
    append_assoc, read_number-decimal, read_graph_string, read_topology-topology_name, read_stages,
    read_edges, few_stages, few_edges,
  )
