-- ===== src/Graph/Query.antt =====
-- plugins/graph/graph.go: `Query`, and the parsing of its statements.
use go_database.Base.{
  ltb, leb, ◌==◌, if◌then◌else◌, drop, Str, str, has_prefix, to_upper, trim_space, fields, ℕ, ◌+◌,
  ◌-◌, ◌*◌, Bool, ◌&&◌, Option, List, [], ◌∷◌, ◌++◌,
}
use Prim.Native.Nat.{◌^◌}
use go_database.Plugin.Types.{Value, Reply, ok, err}
use go_database.Graph.Store.{
  Store, Table, Cell, name, distance, match_pattern, match_rows, neighbor_rows, get_node,
}
use go_database.Graph.Traverse.{Row, traverse}

abbrev table : List Str → List (List Cell) → Table
table columns rows = record { columns = columns; rows = rows; rows_affected = 0 }

-- `match`
pub match : (Option Value → Str) → Str → Store → Reply Table
match print q st = ok (
    table (str "id" ∷ str "label" ∷ str "props" ∷ [])
      (match_rows print (match_pattern (trim_space (drop 5 q))) st.nodes))

abbrev neighbor_table : Str → Str → Store → Reply Table
neighbor_table id etype st =
    ok (table (str "id" ∷ str "label" ∷ str "edge" ∷ []) (neighbor_rows id etype st.nodes st.edges))

-- `neighbors`, of the fields of the statement.
pub neighbors : List Str → Store → Reply Table
neighbors (_ ∷ id ∷ []) st = neighbor_table id [] st
neighbors (_ ∷ id ∷ etype ∷ _) st = neighbor_table id etype st
neighbors _ st = err (str "graph: NEIGHBORS needs <nodeId> [edgeType]")

abbrev is_digit : ℕ → Bool
is_digit c = leb b'0' c && leb c b'9'

-- The digits at the front of a text, as a number on top of `n`.
pub scan_digits : ℕ → Str → ℕ
scan_digits n [] = n
scan_digits n (c ∷ s) =
    let more = scan_digits (n * 10 + (c - 48)) s in if is_digit c then more else n

-- `fmt.Sscanf(s, "%d", &depth)` into a depth that is 0: a sign and digits. A text without digits, and
-- a number out of the range of an `int`, leave the 0; below 0 the loop makes no round either.
pub scan_depth : Str → ℕ
unfolding scan_digits
scan_depth [] = 0
scan_depth (c ∷ s) =
    let n = if c == b'+' then scan_digits 0 s else scan_digits 0 (c ∷ s) in
    if c == b'-' then 0 else if ltb n (2 ^ 63) then n else 0

abbrev row_cells : List Row → List (List Cell)
row_cells [] = []
row_cells (r ∷ rows) = (name r.id ∷ name r.label ∷ distance r.distance ∷ []) ∷ row_cells rows

-- `traverse`, of the fields of the statement.
pub traverse_query : List Str → Store → Reply Table
unfolding scan_depth
traverse_query (_ ∷ start ∷ depth ∷ _) st = ok (
    table (str "id" ∷ str "label" ∷ str "distance" ∷ [])
      (row_cells (traverse start (scan_depth depth) st).rows))
traverse_query _ st = err (str "graph: TRAVERSE needs <nodeId> <depth>")

-- `Query`
pub query : (Option Value → Str) → Str → Store → Reply Table
unfolding match neighbors traverse_query
query print text st =
    let q = trim_space text in
    let upper = to_upper q in
    if has_prefix upper (str "MATCH")
    then match print q st
    else if has_prefix upper (str "NEIGHBORS")
    then neighbors (fields q) st
    else if has_prefix upper (str "TRAVERSE")
    then traverse_query (fields q) st
    else if has_prefix upper (str "NODE")
    then get_node q st
    else err
        (str "graph: unsupported query \"" ++ q ++ str "\" (use MATCH/NEIGHBORS/TRAVERSE/NODE)")
