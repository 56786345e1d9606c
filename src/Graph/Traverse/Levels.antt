-- ===== src/Graph/Traverse/Levels.antt =====
-- plugins/graph/graph.go: laws of one level of the search of `traverse`.
use go_database.Base.{
  Bool-cases, any, any-append, Str, str_eq, str_eq_refl, str_eq_sound, elem, ℕ, ◌≡◌, ◌⊎◌, inl, inr,
  Bool, true, ◌&&◌, ◌||◌, List, [], ◌∷◌, ◌++◌, arith,
}
use go_database.Graph.Store.{Node, Edge}
use go_database.Graph.Traverse.{Search, visit_edge, visit_edges, visit_level}

-- Some edge leads from `u` to `v`.
abbrev pub has_edge : List Edge → Str → Str → Bool
has_edge edges u v = any (λ e. str_eq e.from u && str_eq e.to v) edges

elem-append : (x : Str) (xs ys : List Str) → elem x (xs ++ ys) ≡ (elem x xs || elem x ys)
elem-append x xs ys = any-append (λ y. str_eq y x) xs ys

-- What was visited stays visited, and what is new is queued for the next level.
pub record Grows (s t : Search) : Type 0 where
  pub keeps : (x : Str) → elem x s.visited ≡ true → elem x t.visited ≡ true
  pub keeps_next : (x : Str) → elem x s.next ≡ true → elem x t.next ≡ true
  pub fresh :
      (x : Str) → elem x t.visited ≡ true → (elem x s.visited ≡ true) ⊎ (elem x t.next ≡ true)

Grows-refl : (s : Search) → Grows s s
Grows-refl s = record { keeps = λ x h. h; keeps_next = λ x h. h; fresh = λ x h. inl h }

Grows-trans : {s t u : Search} → Grows s t → Grows t u → Grows s u
Grows-trans g h = record {
  keeps = λ x m. h.keeps x (g.keeps x m);
  keeps_next = λ x m. h.keeps_next x (g.keeps_next x m);
  fresh = λ x m. elim (h.fresh x m) [
    | inr new ↦ inr new
    | inl old ↦ elim (g.fresh x old) [
      | inl older ↦ inl older
      | inr queued ↦ inr (h.keeps_next x queued)
    ]
  ];
}

module _ (nodes : List (Str × Node)) (d : ℕ) where
  visit_edge-Grows : (cur : Str) (s : Search) (e : Edge) → Grows s (visit_edge nodes d cur s e)
  unfolding visit_edge
  visit_edge-Grows cur s e = record {
    keeps = λ x h. ground arith;
    keeps_next = λ x h. ground (arith, elem-append x s.next (e.to ∷ []));
    fresh = λ x h. ground (arith, elem-append x s.next (e.to ∷ []));
  }

  visit_edge-marks :
      (cur : Str) (s : Search) (e : Edge)
      → str_eq e.from cur ≡ true
      → elem e.to (visit_edge nodes d cur s e).visited ≡ true
  unfolding visit_edge
  visit_edge-marks cur s e h = ground (arith, str_eq_refl e.to)

  visit_edges-Grows :
      (cur : Str) (s : Search) (edges : List Edge) → Grows s (visit_edges nodes d cur s edges)
  unfolding visit_edges
  visit_edges-Grows cur s [] = Grows-refl s
  visit_edges-Grows cur s (e ∷ edges) =
      Grows-trans (visit_edge-Grows cur s e)
        (visit_edges-Grows cur (visit_edge nodes d cur s e) edges)

  -- All edges from the current node have their ends visited.
  visit_edges-marks :
      (cur v : Str) (s : Search) (edges : List Edge)
      → has_edge edges cur v ≡ true
      → elem v (visit_edges nodes d cur s edges).visited ≡ true
  unfolding visit_edges
  visit_edges-marks cur v s [] h = cc
  visit_edges-marks cur v s (e ∷ edges) h = elim (Bool-cases (str_eq e.from cur && str_eq e.to v)) [
    | inr other ↦ visit_edges-marks cur v (visit_edge nodes d cur s e) edges (ground arith)
    | inl here ↦
        let to_v : e.to ≡ v = str_eq_sound e.to v (ground arith) in
        let marked : elem v (visit_edge nodes d cur s e).visited ≡ true =
          rw (← to_v) (visit_edge-marks cur s e (ground arith)) in
        (visit_edges-Grows cur (visit_edge nodes d cur s e) edges).keeps v marked
  ]

  pub visit_level-Grows :
      (edges : List Edge) (s : Search) (level : List Str)
      → Grows s (visit_level nodes d edges s level)
  unfolding visit_level
  visit_level-Grows edges s [] = Grows-refl s
  visit_level-Grows edges s (cur ∷ level) =
      Grows-trans (visit_edges-Grows cur s edges)
        (visit_level-Grows edges (visit_edges nodes d cur s edges) level)

  pub visit_level-marks :
      (u v : Str) (edges : List Edge) (s : Search) (level : List Str)
      → elem u level ≡ true
      → has_edge edges u v ≡ true
      → elem v (visit_level nodes d edges s level).visited ≡ true
  unfolding visit_level
  visit_level-marks u v edges s [] m h = cc
  visit_level-marks u v edges s (cur ∷ level) m h = elim (Bool-cases (str_eq cur u)) [
    | inr other ↦
        visit_level-marks u v edges (visit_edges nodes d cur s edges) level (ground arith) h
    | inl here ↦
        let same : cur ≡ u = str_eq_sound cur u here in
        let marked : elem v (visit_edges nodes d cur s edges).visited ≡ true =
          visit_edges-marks cur v s edges (rw same h) in
        (visit_level-Grows edges (visit_edges nodes d cur s edges) level).keeps v marked
  ]

  visit_edge-next :
      (cur x : Str) (s : Search) (e : Edge)
      → elem x (visit_edge nodes d cur s e).next ≡ true
      → (elem x s.next ≡ true) ⊎ ((str_eq e.from cur && str_eq e.to x) ≡ true)
  unfolding visit_edge
  visit_edge-next cur x s e h = ground (arith, elem-append x s.next (e.to ∷ []))

  -- What is queued was queued before, or an edge from the current node leads to it.
  visit_edges-next :
      (cur x : Str) (s : Search) (edges : List Edge)
      → elem x (visit_edges nodes d cur s edges).next ≡ true
      → (elem x s.next ≡ true) ⊎ (has_edge edges cur x ≡ true)
  unfolding visit_edges
  visit_edges-next cur x s [] h = inl h
  visit_edges-next cur x s (e ∷ edges) h =
      elim (visit_edges-next cur x (visit_edge nodes d cur s e) edges h) [
        | inr y ↦ inr (ground arith)
        | inl y ↦ elim (visit_edge-next cur x s e y) [
          | inl old ↦ inl old
          | inr new ↦ inr (ground arith)
        ]
      ]

  pub visit_level-next :
      (x : Str) (edges : List Edge) (s : Search) (level : List Str)
      → elem x (visit_level nodes d edges s level).next ≡ true
      → (elem x s.next ≡ true) ⊎ ((u : Str) × (elem u level ≡ true) × (has_edge edges u x ≡ true))
  unfolding visit_level
  visit_level-next x edges s [] h = inl h
  visit_level-next x edges s (cur ∷ level) h =
      elim (visit_level-next x edges (visit_edges nodes d cur s edges) level h) [
        | inr (u, m, y) ↦ inr (u, ground arith, y)
        | inl y ↦ elim (visit_edges-next cur x s edges y) [
          | inl old ↦ inl old
          | inr new ↦ inr (cur, ground (arith, str_eq_refl cur), new)
        ]
      ]
