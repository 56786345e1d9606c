-- ===== src/Graph/Store.antt =====
-- plugins/graph/graph.go: nodes and edges, the statements that create them and the queries that read
-- them. The map of nodes is an association list, in whose order the rows of MATCH come.
use go_database.Base.{
  if◌then◌else◌, length, take, drop, is_nil, Str, str, str_eq, has_prefix, index, to_upper,
  trim_space, fields, show_nat, lookup, insert, elem, ℕ, ◌+◌, Bool, true, false, ◌&&◌, ◌||◌, Option,
  none, some, List, [], ◌∷◌, ◌++◌,
}
use go_database.Plugin.Types.{Value, Reply, ok, err}

-- `map[string]any`
abbrev pub Props : Type 0
Props = List (Str × Value)

pub record Node : Type 0 where
  pub id : Str
  pub label : Str
  pub props : Props

pub record Edge : Type 0 where
  pub from : Str
  pub to : Str
  pub type_name : Str
  pub props : Props

pub record Store : Type 0 where
  pub nodes : List (Str × Node)
  pub edges : List Edge

-- A cell of a row of the graph's results.
pub data Cell : Type 0 where
  name : Str → Cell
  distance : ℕ → Cell
  props_of : Props → Cell

pub record Table : Type 0 where
  pub columns : List Str
  pub rows : List (List Cell)
  pub rows_affected : ℕ

-- `strings.IndexByte`
pub index_byte : Str → ℕ → Option ℕ
index_byte s c = index s (c ∷ [])

-- `save` writes the store to the file and may fail; the change of the store stays.
abbrev pub Save : Type 0
Save = Store → Option Str

abbrev saved : Save → Store → Table → Reply Table × Store
saved save st t = elim (save st) [ none ↦ (ok t, st) | some e ↦ (err e, st) ]

abbrev pub node_id : ℕ → Str
node_id n = str "n_" ++ show_nat n

-- The decoder of `encoding/json`, into a map.
abbrev pub Decode : Type 0
Decode = Str → Option Props

abbrev node_table : Str → Str → Table
node_table id label = record {
  columns = str "id" ∷ str "label" ∷ [];
  rows = (name id ∷ name label ∷ []) ∷ [];
  rows_affected = 0;
}

pub add_node : Save → Str → Props → Store → Reply Table × Store
add_node save label props st =
    let id = node_id (length st.nodes + 1) in
    let n : Node = record { id = id; label = label; props = props } in
    saved save (record st { nodes = insert id n st.nodes }) (node_table id label)

abbrev or_braces : Str → Str
or_braces raw = if is_nil raw then str "{}" else raw

-- `createNode`, of the trimmed statement.
unfoldable pub create_node : Decode → Save → Str → Store → Reply Table × Store
unfolding index_byte
create_node decode save q st =
    let rest = trim_space (drop 11 q) in
    elim (index_byte rest b' ') [
      | none ↦ (err (str "graph: CREATE NODE needs <label> <json>"), st)
      | some sp ↦ elim (decode (or_braces (trim_space (drop (sp + 1) rest)))) [
        | none ↦ (err (str "graph: invalid node props JSON"), st)
        | some props ↦ add_node save (take sp rest) props st
      ]
    ]

abbrev edge_table : Str → Str → Str → Table
edge_table from to etype = record {
  columns = str "from" ∷ str "to" ∷ str "type" ∷ [];
  rows = (name from ∷ name to ∷ name etype ∷ []) ∷ [];
  rows_affected = 1;
}

pub add_edge : Save → Str → Str → Str → Props → Store → Reply Table × Store
add_edge save from to etype props st =
    let e : Edge = record { from = from; to = to; type_name = etype; props = props } in
    saved save (record st { edges = st.edges ++ e ∷ [] }) (edge_table from to etype)

pub create_edge_parts : Decode → Save → List Str → Store → Reply Table × Store
create_edge_parts decode save (from ∷ to ∷ etype ∷ []) st = add_edge save from to etype [] st
create_edge_parts decode save (from ∷ to ∷ etype ∷ json ∷ _) st = elim (decode json) [
  | none ↦ (err (str "graph: invalid edge props JSON"), st)
  | some props ↦ add_edge save from to etype props st
]
create_edge_parts decode save _ st =
    (err (str "graph: CREATE EDGE needs <from> <to> <type> [json]"), st)

-- `createEdge`; the fields of the statement behind its two words.
unfoldable pub create_edge : Decode → Save → Str → Store → Reply Table × Store
create_edge decode save q st = create_edge_parts decode save (fields (trim_space (drop 11 q))) st

-- `Execute`
unfoldable pub execute : Decode → Save → Str → Store → Reply Table × Store
execute decode save query st =
    let q = trim_space query in
    if has_prefix (to_upper q) (str "CREATE NODE")
    then create_node decode save q st
    else if has_prefix (to_upper q) (str "CREATE EDGE")
    then create_edge decode save q st
    else (err (str "graph: unsupported statement \"" ++ q ++ str "\" (use CREATE NODE/EDGE)"), st)

-- The label, and the filter `k=v` behind WHERE; an empty key filters nothing.
pub record Pattern : Type 0 where
  pub label : Str
  pub where_key : Str
  pub where_value : Str

abbrev filter_of : Str → Str → Pattern
filter_of label w = elim (index_byte w b'=') [
  | none ↦ record { label = label; where_key = []; where_value = [] }
  | some eq ↦ record { label = label; where_key = take eq w; where_value = drop (eq + 1) w }
]

pub match_pattern : Str → Pattern
unfolding index_byte
match_pattern rest = elim (index (to_upper rest) (str " WHERE ")) [
  | none ↦ record { label = rest; where_key = []; where_value = [] }
  | some i ↦ filter_of (trim_space (take i rest)) (trim_space (drop (i + 7) rest))
]

-- The tests of the loop of `match`; `print` is `%v` of a property, which may be missing.
pub keeps : (Option Value → Str) → Pattern → Node → Bool
keeps print p n =
    str_eq n.label p.label
    && (is_nil p.where_key || str_eq (print (lookup p.where_key n.props)) p.where_value)

pub match_rows : (Option Value → Str) → Pattern → List (Str × Node) → List (List Cell)
match_rows print p [] = []
match_rows print p ((_, n) ∷ nodes) =
    let rest = match_rows print p nodes in
    if keeps print p n then (name n.id ∷ name n.label ∷ props_of n.props ∷ []) ∷ rest else rest

-- The other endpoint of an edge at `id`.
pub other_end : Str → Edge → Option Str
other_end id e =
    if str_eq e.from id then some e.to else if str_eq e.to id then some e.from else none

abbrev type_fits : Str → Edge → Bool
type_fits etype e = is_nil etype || str_eq e.type_name etype

abbrev neighbor_row : Edge → Option Node → List (List Cell)
neighbor_row e none = []
neighbor_row e (some n) = (name n.id ∷ name n.label ∷ name e.type_name ∷ []) ∷ []

pub neighbor_rows : Str → Str → List (Str × Node) → List Edge → List (List Cell)
unfolding other_end
neighbor_rows id etype nodes [] = []
neighbor_rows id etype nodes (e ∷ edges) =
    let rest = neighbor_rows id etype nodes edges in
    elim (other_end id e) [
      | none ↦ rest
      | some other ↦ if type_fits etype e then neighbor_row e (lookup other nodes) ++ rest else rest
    ]

-- `getNode`
unfoldable pub get_node : Str → Store → Reply Table
get_node q st = elim (lookup (trim_space (drop 4 q)) st.nodes) [
  | none ↦ err (str "graph: node \"" ++ trim_space (drop 4 q) ++ str "\" not found")
  | some n ↦ ok (record {
    columns = str "id" ∷ str "label" ∷ str "props" ∷ [];
    rows = (name n.id ∷ name n.label ∷ props_of n.props ∷ []) ∷ [];
    rows_affected = 0;
  })
]

-- `Tables`: the labels, each once, in the order of the nodes.
pub labels_from : List Str → List (Str × Node) → List Str
labels_from seen [] = []
labels_from seen ((_, n) ∷ nodes) =
    let rest = labels_from (if elem n.label seen then seen else n.label ∷ seen) nodes in
    if elem n.label seen then rest else n.label ∷ rest

-- `save` with the lock held by the caller or not: `none`, since it waits for the lock forever, where it is.
abbrev save_under : Bool → Save → Store → Option (Option Str)
save_under true save st = none
save_under false save st = some (save st)

-- `DropDatabase`, which holds the lock when it calls `save`; `none` for no return.
unfoldable pub drop_database : Save → Store → Option (Option Str × Store)
drop_database save st =
    let empty : Store = record { nodes = []; edges = [] } in
    elim (save_under true save empty) [ none ↦ none | some e ↦ some (e, empty) ]
