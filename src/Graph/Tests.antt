-- ===== src/Graph/Tests.antt =====
-- plugins/graph/graph.go: a test of the traversal, on a graph with a cycle.
use go_database.Base.{Str, str, elem, ℕ, ◌≤◌, ◌≡◌, ◌↔◌, true, [], ◌∷◌}
use go_database.Graph.Store.{Edge, Store}
use go_database.Graph.Traverse.{traverse}
use go_database.Graph.Traverse.Correct.{Walk, traverse-visited}

abbrev edge : Str → Str → Edge
edge from to = record { from = from; to = to; type_name = str "KNOWS"; props = [] }

abbrev ring : Store
ring = record {
  nodes = [];
  edges = edge (str "a") (str "b") ∷ edge (str "b") (str "c") ∷ edge (str "c") (str "a") ∷ [];
}

traverse-visited_example :
    (elem (str "c") (traverse (str "a") 2 ring).visited ≡ true)
    ↔ ((n : ℕ) × (n ≤ 2) × Walk ring.edges (str "a") n (str "c"))
traverse-visited_example = traverse-visited (str "a") (str "c") 2 ring
