-- ===== src/ExportDot.antt =====
-- The DOT form of a linear pipeline's graph, and the names and labels of all DOT forms
-- (include/pb/core/export_dot.hpp). A function gives the text that the code appends to its stream.
pub mod Names
pub mod Labels
pub mod Lines
pub mod Branches
pub mod Statements
pub mod Graph
pub mod Clusters
pub mod Edges
pub mod Document
pub mod Joined
pub mod Linear
pub mod Whole
mod BranchTests
mod Tests
pub mod Ways
pub mod NamedLines
pub mod StageNodes
pub mod Arrows
use pipeline_c.Prelude.{
  ℕ, Bool, true, false, List, [], ◌∷◌, ◌++◌, ◌==◌, ◌&&◌, ◌||◌, leb, if◌then◌else◌, codes, Text,
  text_eq, decimal, map, not,
}
use pipeline_c.Descriptor.Records.{DescriptorStageRecord, DescriptorEdgeRecord, DescriptorView}

unfoldable pub is_digit : ℕ → Bool
is_digit ch = leb b'0' ch && leb ch b'9'

-- The characters that `sanitize_identifier` keeps.
unfoldable pub is_identifier_code : ℕ → Bool
is_identifier_code ch =
    (leb b'a' ch && leb ch b'z')
    || ((leb b'A' ch && leb ch b'Z') || ((leb b'0' ch && leb ch b'9') || (ch == b'_')))

unfoldable pub sanitize_code : ℕ → ℕ
sanitize_code ch = if is_identifier_code ch then ch else b'_'

unfoldable pub sanitize_codes : Text → Text
sanitize_codes [] = []
sanitize_codes (ch ∷ value) = sanitize_code ch ∷ sanitize_codes value

-- The end of `sanitize_identifier`: no empty name, and no digit in front.
unfoldable pub sanitize_front : Text → Text
sanitize_front [] = codes "pipeline"
sanitize_front (ch ∷ output) = if is_digit ch then b'_' ∷ output else ch ∷ output

unfoldable pub sanitize_identifier : Text → Text
sanitize_identifier value = sanitize_front (sanitize_codes value)

unfoldable pub escape_code : ℕ → Text
escape_code ch =
    if ch == b'"'
    then codes "\\\""
    else if ch == b'\\'
    then codes "\\\\"
    else if ch == b'\n'
    then codes "\\n"
    else if ch == b'\r'
    then codes "\\r"
    else if ch == b'\t'
    then codes "\\t"
    else ch ∷ []

unfoldable pub escape_dot_label : Text → Text
escape_dot_label [] = []
escape_dot_label (ch ∷ value) = escape_code ch ++ escape_dot_label value

-- `append_dot_label`
unfoldable pub dot_label : Text → Text
dot_label value = b'"' ∷ (escape_dot_label value ++ b'"' ∷ [])

-- The label of a stage: its name, and its key if that is another one.
unfoldable pub stage_label : DescriptorStageRecord → Text
stage_label stage =
    if not (text_eq stage.name stage.key)
    then stage.name ++ (codes "\n(" ++ (stage.key ++ codes ")"))
    else stage.name

unfoldable pub stage_dot : DescriptorStageRecord → Text
stage_dot stage =
    codes "  stage_"
    ++ (decimal stage.index
        ++ (codes " [label=" ++ (dot_label (stage_label stage) ++ codes "];\n")))

unfoldable pub edge_dot : DescriptorEdgeRecord → Text
edge_dot edge =
    codes "  stage_"
    ++ (decimal edge.from_stage_index
        ++ (codes " -> stage_"
            ++ (decimal edge.to_stage_index
                ++ (codes " [label="
                    ++ (dot_label (edge.from_key ++ (codes " -> " ++ edge.to_key))
                        ++ codes "];\n")))))

unfoldable pub stages_dot : List DescriptorStageRecord → Text
stages_dot [] = []
stages_dot (stage ∷ stages) = stage_dot stage ++ stages_dot stages

unfoldable pub edges_dot : List DescriptorEdgeRecord → Text
edges_dot [] = []
edges_dot (edge ∷ edges) = edge_dot edge ++ edges_dot edges

-- `dot_emitter::emit` of a pipeline without branches
unfoldable pub linear_dot : (graph_name : Text) → DescriptorView → Text
linear_dot graph_name descriptor =
    codes "digraph "
    ++ (sanitize_identifier graph_name
        ++ (codes " {\n"
            ++ (codes "  rankdir=LR;\n"
                ++ (codes "  node [shape=box];\n\n"
                    ++ (stages_dot descriptor.stages
                        ++ (codes "\n" ++ (edges_dot descriptor.edges ++ codes "}\n")))))))
