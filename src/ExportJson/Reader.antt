-- ===== src/ExportJson/Reader.antt =====
-- A reader for the graph documents of include/pb/core/export_json.hpp, written from their shape. It
-- stands beside the code, as an independent description of what the documents hold.
use pipeline_c.Prelude.{
  ℕ, zero, suc, ◌+◌, ◌*◌, ◌-◌, Bool, true, false, Option, none, some, List, [], ◌∷◌, ◌&&◌, leb,
  ◌==◌, if◌then◌else◌, codes, Text, text_eq, expect,
}
use pipeline_c.Json.{read_string}
use pipeline_c.Descriptor.Records.{DescriptorTopology, linear, branch, fan_in}

infixl 5 ◌>>=◌
abbrev pub ◌>>=◌ : {A B : Type 0} → Option A → (A → Option B) → Option B
none >>= f = none
some a >>= f = f a

-- The number that a text begins with.
unfoldable pub read_digits : (acc : ℕ) → Text → ℕ × Text
read_digits acc [] = (acc, [])
read_digits acc (c ∷ text) =
    let rest = read_digits (acc * 10 + (c - 48)) text in
    if leb 48 c && leb c 57 then rest else (acc, c ∷ text)

unfoldable pub read_number : Text → Option (ℕ × Text)
read_number text = some (read_digits 0 text)

-- The elements of an array up to its closing bracket, which is 93; `fuel` is more than their number.
unfoldable pub read_items :
    {B : Type 0}
    → (Text → Option (B × Text))
    → (fuel : ℕ) (first : Bool) → Text
    → Option (List B × Text)
read_items read zero first text = none
read_items read (suc fuel) first [] = none
read_items read (suc fuel) first (c ∷ text) =
    let behind = (do
      t ← if first then some (c ∷ text) else expect (codes ",") (c ∷ text)
      (x, t1) ← read t
      (xs, t2) ← read_items read fuel false t1
      some (x ∷ xs, t2)) in
    if c == 93 then some ([], text) else behind

pub record CaseDoc : Type 0 where
  pub index : ℕ
  pub case_id : Text
  pub case_key : Text
  pub case_label : Text
  pub predicate_node_id : Text
  pub stage_node_id : Text
  pub predicate_key : Text
  pub predicate_name : Text
  pub stage_key : Text
  pub stage_name : Text

pub record StageDoc : Type 0 where
  pub index : ℕ
  pub key : Text
  pub name : Text
  pub kind : Text
  pub branch_cases : Option (List CaseDoc)

pub record EdgeDoc : Type 0 where
  pub index : ℕ
  pub from_stage_index : ℕ
  pub to_stage_index : ℕ
  pub from_key : Text
  pub from_name : Text
  pub to_key : Text
  pub to_name : Text

pub record GraphDoc : Type 0 where
  pub topology : DescriptorTopology
  pub stage_count : ℕ
  pub edge_count : ℕ
  pub stages : List StageDoc
  pub edges : List EdgeDoc

unfoldable pub read_case : Text → Option (CaseDoc × Text)
read_case text = do
  t1 ← expect (codes "{\"index\":") text
  (index, t2) ← read_number t1
  t3 ← expect (codes ",\"case_id\":") t2
  (case_id, t4) ← read_string t3
  t5 ← expect (codes ",\"case_key\":") t4
  (case_key, t6) ← read_string t5
  t7 ← expect (codes ",\"case_label\":") t6
  (case_label, t8) ← read_string t7
  t9 ← expect (codes ",\"predicate_node_id\":") t8
  (predicate_node_id, t10) ← read_string t9
  t11 ← expect (codes ",\"stage_node_id\":") t10
  (stage_node_id, t12) ← read_string t11
  t13 ← expect (codes ",\"predicate_key\":") t12
  (predicate_key, t14) ← read_string t13
  t15 ← expect (codes ",\"predicate_name\":") t14
  (predicate_name, t16) ← read_string t15
  t17 ← expect (codes ",\"stage_key\":") t16
  (stage_key, t18) ← read_string t17
  t19 ← expect (codes ",\"stage_name\":") t18
  (stage_name, t20) ← read_string t19
  t21 ←
      expect
        (codes
          ",\"predicate_edge\":{\"from\":\"branch\",\"to\":\"predicate\",\"style\":\"dashed\",\"label\":\"test\"}")
        t20
  t22 ← expect (codes ",\"stage_edge\":{\"from\":\"predicate\",\"to\":\"case_stage\"}") t21
  t23 ← expect (codes "}") t22
  some (
    record {
      index = index;
      case_id = case_id;
      case_key = case_key;
      case_label = case_label;
      predicate_node_id = predicate_node_id;
      stage_node_id = stage_node_id;
      predicate_key = predicate_key;
      predicate_name = predicate_name;
      stage_key = stage_key;
      stage_name = stage_name;
    },
    t23,
  )

unfoldable pub read_cases : (fuel : ℕ) → Text → Option (List CaseDoc × Text)
read_cases fuel text = do
  t1 ← expect (codes ",\"branch_cases\":[") text
  read_items read_case fuel true t1

-- The kind `stage` has no cases.
unfoldable pub read_kind_cases :
    (fuel : ℕ) (is_stage : Bool) → Text → Option (Option (List CaseDoc) × Text)
read_kind_cases fuel true text = some (none, text)
read_kind_cases fuel false text = do (cases, t1) ← read_cases fuel text; some (some cases, t1)

unfoldable pub read_stage : (fuel : ℕ) → Text → Option (StageDoc × Text)
read_stage fuel text = do
  t1 ← expect (codes "{\"index\":") text
  (index, t2) ← read_number t1
  t3 ← expect (codes ",\"key\":") t2
  (key, t4) ← read_string t3
  t5 ← expect (codes ",\"name\":") t4
  (name, t6) ← read_string t5
  t7 ← expect (codes ",\"kind\":") t6
  (kind, t8) ← read_string t7
  (cases, t9) ← read_kind_cases fuel (text_eq kind (codes "stage")) t8
  t10 ← expect (codes "}") t9
  some (record { index = index; key = key; name = name; kind = kind; branch_cases = cases }, t10)

unfoldable pub read_edge : Text → Option (EdgeDoc × Text)
read_edge text = do
  t1 ← expect (codes "{\"index\":") text
  (index, t2) ← read_number t1
  t3 ← expect (codes ",\"from_stage_index\":") t2
  (from_stage_index, t4) ← read_number t3
  t5 ← expect (codes ",\"to_stage_index\":") t4
  (to_stage_index, t6) ← read_number t5
  t7 ← expect (codes ",\"from_key\":") t6
  (from_key, t8) ← read_string t7
  t9 ← expect (codes ",\"from_name\":") t8
  (from_name, t10) ← read_string t9
  t11 ← expect (codes ",\"to_key\":") t10
  (to_key, t12) ← read_string t11
  t13 ← expect (codes ",\"to_name\":") t12
  (to_name, t14) ← read_string t13
  t15 ← expect (codes "}") t14
  some (
    record {
      index = index;
      from_stage_index = from_stage_index;
      to_stage_index = to_stage_index;
      from_key = from_key;
      from_name = from_name;
      to_key = to_key;
      to_name = to_name;
    },
    t15,
  )

-- The topology that a word names.
unfoldable pub read_topology : Text → Option DescriptorTopology
read_topology name =
    if text_eq name (codes "linear")
    then some linear
    else if text_eq name (codes "branch")
    then some branch
    else if text_eq name (codes "fan_in")
    then some fan_in
    else none

unfoldable pub read_graph : (fuel : ℕ) → Text → Option (GraphDoc × Text)
read_graph fuel text = do
  t1 ← expect (codes "{\"schema_version\":\"pb.core.graph.v1\",\"topology\":") text
  (name, t2) ← read_string t1
  topology ← read_topology name
  t3 ← expect (codes ",\"stage_count\":") t2
  (stage_count, t4) ← read_number t3
  t5 ← expect (codes ",\"edge_count\":") t4
  (edge_count, t6) ← read_number t5
  t7 ← expect (codes ",\"stages\":[") t6
  (stages, t8) ← read_items (read_stage fuel) fuel true t7
  t9 ← expect (codes ",\"edges\":[") t8
  (edges, t10) ← read_items read_edge fuel true t9
  t11 ← expect (codes "}") t10
  some (
    record {
      topology = topology;
      stage_count = stage_count;
      edge_count = edge_count;
      stages = stages;
      edges = edges;
    },
    t11,
  )
