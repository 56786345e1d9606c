-- ===== src/Graph/Traverse.antt =====
-- plugins/graph/graph.go: `traverse`, breadth first up to a number of hops.
pub mod Levels
pub mod Correct
use go_database.Base.{
  if◌then◌else◌, is_nil, Str, str_eq, lookup, elem, ℕ, zero, suc, ◌+◌, not, ◌||◌, Option, none,
  some, List, [], ◌∷◌, ◌++◌,
}
use go_database.Graph.Store.{Node, Edge, Store}

-- A row: the node's id and label, and its distance.
pub record Row : Type 0 where
  pub id : Str
  pub label : Str
  pub distance : ℕ

-- The variables of the loops.
pub record Search : Type 0 where
  pub visited : List Str
  pub rows : List Row
  pub next : List Str

abbrev pub row_of : ℕ → Option Node → List Row
row_of d none = []
row_of d (some n) = record { id = n.id; label = n.label; distance = d + 1 } ∷ []

module _ (nodes : List (Str × Node)) where
  -- The body of the innermost loop.
  pub visit_edge : ℕ → Str → Search → Edge → Search
  visit_edge d cur s e = if not (str_eq e.from cur) || elem e.to s.visited then s else record {
    visited = e.to ∷ s.visited;
    rows = s.rows ++ row_of d (lookup e.to nodes);
    next = s.next ++ e.to ∷ [];
  }

  pub visit_edges : ℕ → Str → Search → List Edge → Search
  visit_edges d cur s [] = s
  visit_edges d cur s (e ∷ edges) = visit_edges d cur (visit_edge d cur s e) edges

  pub visit_level : ℕ → List Edge → Search → List Str → Search
  visit_level d edges s [] = s
  visit_level d edges s (cur ∷ level) = visit_level d edges (visit_edges d cur s edges) level

  -- The loop over `d`, with the rounds that are left.
  pub rounds : ℕ → ℕ → List Edge → Search → Search
  rounds zero d edges s = s
  rounds (suc left) d edges s =
      let found = visit_level d edges (record s { next = [] }) s.next in
      let deeper = rounds left (d + 1) edges found in if is_nil found.next then found else deeper

abbrev pub search_start : Str → Search
search_start start = record { visited = start ∷ []; rows = []; next = start ∷ [] }

unfoldable pub traverse : Str → ℕ → Store → Search
unfolding rounds visit_level visit_edges visit_edge
traverse start depth st = rounds st.nodes depth 0 st.edges (search_start start)
