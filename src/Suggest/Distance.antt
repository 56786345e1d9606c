-- ===== src/Suggest/Distance.antt =====
-- internal/suggest/levenshtein.go: `Levenshtein`, whose table is filled row by row.
pub mod Edits
pub mod Rows
use go_database.Base.{
  ltb, ◌==◌, if◌then◌else◌, length, is_nil, Str, to_lower, ℕ, ◌+◌, List, [], ◌∷◌,
}

-- `min3`
unfoldable pub min3 : ℕ → ℕ → ℕ → ℕ
min3 a b c = if ltb a b then (if ltb a c then a else c) else if ltb b c then b else c

unfoldable pub cost : ℕ → ℕ → ℕ
cost x y = if x == y then 0 else 1

-- The inner loop of a row for the letter `x`: `left` is the cell before the next one, and the row above
-- is given from that cell's place on, with the rest of `t`.
unfoldable pub fill_cells : ℕ → ℕ → List ℕ → Str → List ℕ
fill_cells x left (diagonal ∷ above ∷ prev) (y ∷ t) =
    let cell = min3 (above + 1) (left + 1) (diagonal + cost x y) in
    cell ∷ fill_cells x cell (above ∷ prev) t
fill_cells x left _ _ = []

-- `d[0][j] = j`
unfoldable pub first_row : ℕ → Str → List ℕ
first_row j [] = j ∷ []
first_row j (_ ∷ t) = j ∷ first_row (j + 1) t

-- The outer loop: row `i` is given, and the last row is what is left.
unfoldable pub fill_rows : ℕ → List ℕ → Str → Str → List ℕ
unfolding fill_cells
fill_rows i prev [] t = prev
fill_rows i prev (x ∷ s) t = fill_rows (i + 1) ((i + 1) ∷ fill_cells x (i + 1) prev t) s t

unfoldable pub last_cell : List ℕ → ℕ
last_cell [] = 0
last_cell (c ∷ []) = c
last_cell (_ ∷ c ∷ row) = last_cell (c ∷ row)

-- The part of `Levenshtein` behind the change to lower case.
unfoldable pub distance : Str → Str → ℕ
unfolding fill_rows first_row last_cell
distance s t =
    if is_nil s
    then length t
    else if is_nil t
    then length s
    else last_cell (fill_rows 0 (first_row 0 t) s t)

unfoldable pub levenshtein : Str → Str → ℕ
unfolding distance
levenshtein s t = distance (to_lower s) (to_lower t)
