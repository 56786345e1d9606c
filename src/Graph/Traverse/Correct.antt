-- ===== src/Graph/Traverse/Correct.antt =====
-- plugins/graph/graph.go: walks, and the invariant of the search of `traverse`.
use go_database.Base.{
  Bool-cases, is_nil, Str, str_eq_refl, str_eq_sound, elem, ℕ, zero, suc, ◌+◌, ◌≤◌, ◌≡◌, refl, ◌↔◌,
  ◌⊎◌, inl, inr, true, false, List, [], ◌∷◌, arith,
}
use go_database.Graph.Store.{Node, Edge, Store}
use go_database.Graph.Traverse.{Search, visit_level, rounds, search_start, traverse}
use go_database.Graph.Traverse.Levels.{
  has_edge, visit_level-Grows, visit_level-marks, visit_level-next,
}

-- The walks of `n` edges from `start`.
pub data Walk (edges : List Edge) (start : Str) : ℕ → Str → Type 0 where
  here : Walk edges start 0 start
  hop :
      {n : ℕ} {u v : Str}
      → Walk edges start n u
      → has_edge edges u v ≡ true
      → Walk edges start (suc n) v

module _ (nodes : List (Str × Node)) (edges : List Edge) (start : Str) where
  -- A walk of at most `d` edges leads to `v`.
  abbrev Within : ℕ → Str → Type 0
  Within d v = (n : ℕ) × (n ≤ d) × Walk edges start n v

  -- The state of the search at distance `d`, with the level in `next`.
  record Inv (d : ℕ) (s : Search) : Type 0 where
    reached : (n : ℕ) (v : Str) → Walk edges start n v → n ≤ d → elem v s.visited ≡ true
    closed :
        (u v : Str)
        → elem u s.visited ≡ true
        → has_edge edges u v ≡ true
        → (elem u s.next ≡ true) ⊎ (elem v s.visited ≡ true)
    sound : (v : Str) → elem v s.visited ≡ true → Within d v
    level : (v : Str) → elem v s.next ≡ true → Walk edges start d v

  in_start : (v : Str) → elem v (start ∷ []) ≡ true → start ≡ v
  in_start v m = str_eq_sound start v (ground arith)

  start-within : (n : ℕ) (v : Str) → Walk edges start n v → n ≤ 0 → elem v (start ∷ []) ≡ true
  start-within _ _ here h = rw (str_eq_refl start) refl
  start-within _ v (hop {n} {u} w e) h = grind arith

  Inv-start : Inv 0 (search_start start)
  Inv-start = record {
    reached = start-within;
    closed = λ u v m e. inl m;
    sound = λ v m. (0, omega arith, rw (← in_start v m) here);
    level = λ v m. rw (← in_start v m) here;
  }

  abbrev step : ℕ → Search → Search
  step d s = visit_level nodes d edges (record s { next = [] }) s.next

  Walk-marks :
      (d : ℕ) (s t : Search)
      → Inv d s
      → ((x : Str) → elem x s.visited ≡ true → elem x t.visited ≡ true)
      → ((u v : Str)
          → elem u s.visited ≡ true
          → has_edge edges u v ≡ true
          → elem v t.visited ≡ true)
      → (n : ℕ) (v : Str) → Walk edges start n v
      → n ≤ suc d
      → elem v t.visited ≡ true
  Walk-marks d s t h keeps extend _ _ here b = keeps start (h.reached 0 start here (omega arith))
  Walk-marks d s t h keeps extend _ v (hop {n} {u} w e) b =
      extend u v (h.reached n u w (omega arith)) e

  Inv-step : (d : ℕ) (s : Search) → Inv d s → Inv (suc d) (step d s)
  Inv-step d s h =
      let g = visit_level-Grows nodes d edges (record s { next = [] }) s.next in
      let queued = λ (v : Str) (m : elem v (step d s).next ≡ true).
        visit_level-next nodes d v edges (record s { next = [] }) s.next m in
      let extend : (u v : Str)
          → elem u s.visited ≡ true
          → has_edge edges u v ≡ true
          → elem v (step d s).visited ≡ true =
        λ u v m e. elim (h.closed u v m e) [
          | inl in_level ↦
              visit_level-marks nodes d u v edges (record s { next = [] }) s.next in_level e
          | inr old ↦ g.keeps v old
        ] in
      let deeper : (v : Str) → elem v (step d s).next ≡ true → Walk edges start (suc d) v = λ v m.
        elim (queued v m) [
          | inl nothing ↦ cc
          | inr (u, in_level, e) ↦ hop (h.level u in_level) e
        ] in
      record {
        reached = Walk-marks d s (step d s) h g.keeps extend;
        closed =
            λ u v m e. elim (g.fresh u m) [ inl old ↦ inr (extend u v old e) | inr new ↦ inl new ];
        sound = λ v m. elim (g.fresh v m) [
          | inl old ↦ let (n, b, w) = h.sound v old in (n, omega arith, w)
          | inr new ↦ (suc d, omega arith, deeper v new)
        ];
        level = deeper;
      }

  is_nil-elem : (u : Str) (level : List Str) → is_nil level ≡ true → elem u level ≡ false
  is_nil-elem u [] h = refl
  is_nil-elem u (x ∷ level) h = cc

  Inv-empty :
      (d : ℕ) (s : Search)
      → Inv d s
      → is_nil s.next ≡ true
      → (n : ℕ) (v : Str) → Walk edges start n v
      → elem v s.visited ≡ true
  Inv-empty d s h none_left _ _ here = h.reached 0 start here (omega arith)
  Inv-empty d s h none_left _ v (hop {n} {u} w e) =
      elim (h.closed u v (Inv-empty d s h none_left n u w) e) [
        | inl m ↦ grind (arith, is_nil-elem u s.next none_left)
        | inr old ↦ old
      ]

  -- A search that is at distance `d` has found what is within `far` edges.
  abbrev Found : ℕ → Str → Search → Type 0
  Found far v s = (elem v s.visited ≡ true) ↔ Within far v

  rounds-visits :
      (left d far : ℕ) (s : Search)
      → Inv d s
      → (v : Str) → d + left ≡ far
      → Found far v (rounds nodes left d edges s)
  unfolding rounds
  rounds-visits zero d far s h v total = (
    λ m. let (n, b, w) = h.sound v m in (n, omega arith, w),
    λ (n, b, w). h.reached n v w (omega arith),
  )
  rounds-visits (suc left) d far s h v total = elim (Bool-cases (is_nil (step d s).next)) [
    | inl done ↦ rw done (
      λ m. let (n, b, w) = (Inv-step d s h).sound v m in (n, omega arith, w),
      λ (n, b, w). Inv-empty (suc d) (step d s) (Inv-step d s h) done n v w,
    )
    | inr more ↦
        let same : suc d ≡ d + 1 = omega arith in
        let inv : Inv (d + 1) (step d s) = rw (← same) (Inv-step d s h) in
        rw more (rounds-visits left (d + 1) far (step d s) inv v (omega arith))
  ]

-- A node is visited iff at most `depth` edges lead to it from the start.
pub traverse-visited :
    (start v : Str) (depth : ℕ) (st : Store)
    → (elem v (traverse start depth st).visited ≡ true)
      ↔ ((n : ℕ) × (n ≤ depth) × Walk st.edges start n v)
unfolding traverse
traverse-visited start v depth st =
    rounds-visits st.nodes st.edges start depth 0 depth (search_start start)
      (Inv-start st.nodes st.edges start) v (omega arith)
