-- ===== src/Suggest/Distance/Rows.antt =====
-- internal/suggest/levenshtein.go: the rows of the table of `Levenshtein`.
use go_database.Base.{
  length, Str, to_lower, ℕ, suc, ◌+◌, ◌≤◌, ◌≡◌, refl, ap, ◌∙◌, List, [], ◌∷◌, ◌++◌, append-nil,
  arith,
}
use go_database.Suggest.Distance.{
  min3, fill_cells, first_row, fill_rows, last_cell, distance, levenshtein,
}
use go_database.Suggest.Distance.Edits.{
  Edits, done, keep, replace, remove_one, insert_one, lev, lev-Edits, lev-least,
}

-- A text behind the part of it that is read, the last letter read first.
pub rev_onto : Str → Str → Str
rev_onto [] acc = acc
rev_onto (x ∷ s) acc = rev_onto s (x ∷ acc)

-- The row of the part `rp` that is read, from the column of the part `acc` on.
row : Str → Str → Str → List ℕ
row rp acc [] = lev rp acc ∷ []
row rp acc (y ∷ t) = lev rp acc ∷ row rp (y ∷ acc) t

fill_cells-row :
    (x : ℕ) (rp acc t : Str)
    → (lev (x ∷ rp) acc ∷ fill_cells x (lev (x ∷ rp) acc) (row rp acc t) t) ≡ row (x ∷ rp) acc t
unfolding fill_cells row lev min3
fill_cells-row x rp acc [] = refl
fill_cells-row x rp acc (y ∷ []) = refl
fill_cells-row x rp acc (y ∷ z ∷ t) =
    ap (λ r. lev (x ∷ rp) acc ∷ r) (fill_cells-row x rp (y ∷ acc) (z ∷ t))

first_row_lem : (acc t : Str) → first_row (length acc) t ≡ row [] acc t
unfolding first_row row lev
first_row_lem acc [] = refl
first_row_lem acc (y ∷ t) =
    let next : length acc + 1 ≡ suc (length acc) = omega arith in
    rw next (ap (λ r. length acc ∷ r) (first_row_lem (y ∷ acc) t))

lev-column : (x : ℕ) (rp : Str) → lev (x ∷ rp) [] ≡ length rp + 1
unfolding lev
lev-column x rp = omega arith

fill_rows-row : (rp s t : Str) → fill_rows (length rp) (row rp [] t) s t ≡ row (rev_onto s rp) [] t
unfolding fill_rows rev_onto
fill_rows-row rp [] t = refl
fill_rows-row rp (x ∷ s) t =
    let first : lev (x ∷ rp) [] ≡ length rp + 1 = lev-column x rp in
    let filled : ((length rp + 1) ∷ fill_cells x (length rp + 1) (row rp [] t) t)
        ≡ row (x ∷ rp) [] t =
      rw (← first) (fill_cells-row x rp [] t) in
    let next : length rp + 1 ≡ suc (length rp) = omega arith in
    rw (filled, next) (fill_rows-row (x ∷ rp) s t)

last_cell-row : (rp acc t : Str) → last_cell (row rp acc t) ≡ lev rp (rev_onto t acc)
unfolding last_cell row rev_onto
last_cell-row rp acc [] = refl
last_cell-row rp acc (y ∷ []) = refl
last_cell-row rp acc (y ∷ z ∷ t) = last_cell-row rp (y ∷ acc) (z ∷ t)

shift : (n m : ℕ) → suc n + m ≡ n + suc m
shift n m = omega arith

Edits-rev_onto :
    {s t : Str} {n : ℕ}
    → Edits s t n
    → {u v : Str} {m : ℕ} → Edits u v m
    → Edits (rev_onto s u) (rev_onto t v) (n + m)
unfolding rev_onto
Edits-rev_onto done {u} {v} {m} f = let total : m ≡ 0 + m = omega arith in rw (← total) f
Edits-rev_onto (keep e) f = Edits-rev_onto e (keep f)
Edits-rev_onto (replace {n = n} e) {u} {v} {m} f = rw (shift n m) (Edits-rev_onto e (replace f))
Edits-rev_onto (remove_one {n = n} e) {u} {v} {m} f =
    rw (shift n m) (Edits-rev_onto e (remove_one f))
Edits-rev_onto (insert_one {n = n} e) {u} {v} {m} f =
    rw (shift n m) (Edits-rev_onto e (insert_one f))

rev_onto-rev_onto : (s u v : Str) → rev_onto (rev_onto s u) v ≡ rev_onto u (s ++ v)
unfolding rev_onto
rev_onto-rev_onto [] u v = refl
rev_onto-rev_onto (x ∷ s) u v = rev_onto-rev_onto s (x ∷ u) v

rev_onto_twice : (s : Str) → rev_onto (rev_onto s []) [] ≡ s
unfolding rev_onto
rev_onto_twice s = rev_onto-rev_onto s [] [] ∙ append-nil s

Edits-rev : {s t : Str} {n : ℕ} → Edits s t n → Edits (rev_onto s []) (rev_onto t []) n
Edits-rev {s} {t} {n} e = let total : n ≡ n + 0 = omega arith in rw total (Edits-rev_onto e done)

table :
    (s t : Str) → last_cell (fill_rows 0 (first_row 0 t) s t) ≡ lev (rev_onto s []) (rev_onto t [])
table s t =
    let start : first_row 0 t ≡ row [] [] t = first_row_lem [] t in
    let rows : fill_rows 0 (row [] [] t) s t ≡ row (rev_onto s []) [] t = fill_rows-row [] s t in
    rw (start, rows) (last_cell-row (rev_onto s []) [] t)

lev-rev_le : (s t : Str) → lev (rev_onto s []) (rev_onto t []) ≤ lev s t
lev-rev_le s t = lev-least (Edits-rev (lev-Edits s t))

lev-rev : (s t : Str) → lev (rev_onto s []) (rev_onto t []) ≡ lev s t
lev-rev s t =
    let below = lev-rev_le s t in
    let twice = lev-rev_le (rev_onto s []) (rev_onto t []) in
    let above : lev s t ≤ lev (rev_onto s []) (rev_onto t []) =
      rw (rev_onto_twice s, rev_onto_twice t) at twice in
    omega arith

distance-lev : (s t : Str) → distance s t ≡ lev s t
unfolding distance lev
distance-lev [] t = refl
distance-lev (x ∷ s) [] = refl
distance-lev (x ∷ s) (y ∷ t) = table (x ∷ s) (y ∷ t) ∙ lev-rev (x ∷ s) (y ∷ t)

-- `Levenshtein` counts the edits of a shortest script: the texts in lower case are turned into each
-- other with that many insertions, removals and replacements of single letters, and a script with `n` of
-- them has no fewer.
pub levenshtein-shortest :
    (s t : Str) (n : ℕ)
    → Edits (to_lower s) (to_lower t) n
    → Edits (to_lower s) (to_lower t) (levenshtein s t) × (levenshtein s t ≤ n)
unfolding levenshtein
levenshtein-shortest s t n e =
    let same = distance-lev (to_lower s) (to_lower t) in
    (rw same (lev-Edits (to_lower s) (to_lower t)), rw same (lev-least e))
