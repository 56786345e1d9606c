-- ===== src/Transfer/Engine/Pages.antt =====
-- internal/transfer/engine.go: `transferTable` on a source that serves its table in pages.
use go_database.Base.{
  Bool-cases, length, take, drop, is_nil, length-append, length-drop, Str, ℕ, zero, suc, ◌+◌, ◌≤◌,
  ◌<◌, ◌≡◌, refl, sym, ap, ◌∙◌, inl, inr, true, false, none, some, List, [], ◌∷◌, ◌++◌, arith,
}
use go_database.Plugin.Types.{Value, Result, Reply, ok, TableInfo}
use go_database.Transfer.Sql.{generate_insert_sql}
use go_database.Transfer.Engine.{
  Databases, Job, page_query, insert_sql, copy_pages, transfer_table, name_rows, map_rows,
}

module _ {A : Type 0} where
  pub concat : List (List A) → List A
  concat [] = []
  concat (b ∷ bs) = b ++ concat bs

  take-drop : (n : ℕ) (xs : List A) → take n xs ++ drop n xs ≡ xs
  take-drop zero xs = refl
  take-drop (suc n) [] = refl
  take-drop (suc n) (x ∷ xs) = ap (λ l. x ∷ l) (take-drop n xs)

  drop-length-take : (n : ℕ) (xs : List A) → drop (length (take n xs)) xs ≡ drop n xs
  drop-length-take zero xs = refl
  drop-length-take (suc n) [] = refl
  drop-length-take (suc n) (x ∷ xs) = drop-length-take n xs

  drop-nil : (n : ℕ) → drop {A = A} n [] ≡ []
  drop-nil zero = refl
  drop-nil (suc n) = refl

  drop-drop : (n m : ℕ) (xs : List A) → drop m (drop n xs) ≡ drop (n + m) xs
  drop-drop zero m xs = let same : m ≡ 0 + m = omega arith in ap (λ k. drop k xs) same
  drop-drop (suc n) m [] = drop-nil m ∙ sym (drop-nil (suc n + m))
  drop-drop (suc n) m (x ∷ xs) =
      let same : suc (n + m) ≡ suc n + m = omega arith in
      drop-drop n m xs ∙ ap (λ k. drop k (x ∷ xs)) same

  length-take_le : (n : ℕ) (xs : List A) → length (take n xs) ≤ n
  length-take_le zero xs = omega arith
  length-take_le (suc n) [] = omega arith
  length-take_le (suc n) (x ∷ xs) = omega (arith, length-take_le n xs)

  is_nil-take : (n : ℕ) (xs : List A) → 1 ≤ n → is_nil (take n xs) ≡ is_nil xs
  is_nil-take zero xs h = grind arith
  is_nil-take (suc n) [] h = refl
  is_nil-take (suc n) (x ∷ xs) h = refl

  length-pos : (xs : List A) → is_nil xs ≡ false → 1 ≤ length xs
  length-pos [] h = cc
  length-pos (x ∷ xs) h = omega arith

  length-zero : (xs : List A) → is_nil xs ≡ true → xs ≡ []
  length-zero [] h = refl
  length-zero (x ∷ xs) h = cc

-- No batch is larger than `n`.
pub data AreSmall {A : Type 0} (n : ℕ) : List (List A) → Type 0 where
  none_left : AreSmall n []
  one_more : {b : List A} {bs : List (List A)} → length b ≤ n → AreSmall n bs → AreSmall n (b ∷ bs)

module _ {W : Type 0} (dbs : Databases W) (print : Value → Str) (job : Job) (t : TableInfo) where
  -- The state after the batches were inserted, one statement for each.
  pub write_all : List Str → List (List (List Value)) → W → W
  write_all cols [] w = w
  write_all cols (b ∷ bs) w =
      write_all cols bs (dbs.execute job.target_conn (insert_sql dbs print job t cols b) w).1

  insert_sql-is_nil :
      (cols : List Str) (rows : List (List Value))
      → is_nil rows ≡ false
      → is_nil (insert_sql dbs print job t cols rows) ≡ false
  unfolding name_rows map_rows generate_insert_sql
  insert_sql-is_nil cols [] h = cc
  insert_sql-is_nil cols (row ∷ rows) h = refl

  module _ (cols : List Str) (rows : List (List Value)) (page : ℕ → Result)
      (size : 1 ≤ job.batch_size) (columns_are : (offset : ℕ) → (page offset).columns ≡ cols)
      (rows_are : (offset : ℕ) → (page offset).rows ≡ take job.batch_size (drop offset rows))
      (running : (w : W) → dbs.is_done w ≡ false)
      (serves : (offset : ℕ) (w : W)
        → offset ≤ length rows
        → dbs.query job.source_conn (page_query t.name offset job.batch_size) w
          ≡ (ok (page offset), w))
      (accepts : (q : Str) (w : W)
        → (r : Result) × ((dbs.execute job.target_conn q w).0 ≡ ok r)) where
    abbrev Writes : ℕ → ℕ → W → Type 0
    Writes fuel offset w =
        (batches : List (List (List Value))) × (concat batches ≡ drop offset rows)
        × AreSmall job.batch_size batches
        × (copy_pages dbs print job t fuel offset w
            ≡ some (
              record { total = offset + length (drop offset rows); failure = none },
              write_all cols batches w,
            ))

    copy_pages-done :
        (fuel offset : ℕ) (w : W)
        → offset ≤ length rows
        → is_nil (page offset).rows ≡ true
        → copy_pages dbs print job t (suc fuel) offset w
          ≡ some (record { total = offset; failure = none }, w)
    unfolding copy_pages
    copy_pages-done fuel offset w within d = rw (running w, serves offset w within, d) refl

    abbrev inserted : ℕ → W → Reply Result × W
    inserted offset w =
        dbs.execute job.target_conn
          (insert_sql dbs print job t (page offset).columns (page offset).rows) w

    copy_pages-more :
        (fuel offset : ℕ) (w : W)
        → offset ≤ length rows
        → is_nil (page offset).rows ≡ false
        → copy_pages dbs print job t (suc fuel) offset w
          ≡ copy_pages dbs print job t fuel
              (offset + length (page offset).rows)
              (inserted offset w).1
    unfolding copy_pages
    copy_pages-more fuel offset w within m =
        let (r, e) =
          accepts (insert_sql dbs print job t (page offset).columns (page offset).rows) w in
        rw
          (
            running w,
            serves offset w within,
            m,
            insert_sql-is_nil (page offset).columns (page offset).rows m,
            e,
          )
          refl

    inserted-batch :
        (offset : ℕ) (w : W)
        → (inserted offset w).1
          ≡ (dbs.execute job.target_conn
              (insert_sql dbs print job t cols (take job.batch_size (drop offset rows)))
              w).1
    inserted-batch offset w =
        ap
          (λ c. (dbs.execute job.target_conn (insert_sql dbs print job t c (page offset).rows) w).1)
          (columns_are offset)
        ∙ ap (λ r. (dbs.execute job.target_conn (insert_sql dbs print job t cols r) w).1)
            (rows_are offset)

    copy_pages-Writes :
        (fuel offset : ℕ) (w : W)
        → offset ≤ length rows
        → length (drop offset rows) < fuel
        → Writes fuel offset w
    unfolding write_all concat
    copy_pages-Writes zero offset w within h = grind arith
    copy_pages-Writes (suc fuel) offset w within h =
        let n = job.batch_size in
        let left = drop offset rows in
        let empty : is_nil (page offset).rows ≡ is_nil left =
          ap is_nil (rows_are offset) ∙ is_nil-take n left size in
        elim (Bool-cases (is_nil left)) [
          | inl done ↦
              let nothing : left ≡ [] = length-zero left done in
              let total : offset ≡ offset + length left =
                let len : length left ≡ 0 = ap length nothing in omega arith in
              (
                [],
                sym nothing,
                none_left,
                copy_pages-done fuel offset w within (empty ∙ done)
                    ∙ ap (λ k. some (record { total = k; failure = none }, w)) total,
              )
          | inr more ↦
              let at = offset + length (page offset).rows in
              let next : drop at rows ≡ drop n left =
                sym (drop-drop offset (length (page offset).rows) rows)
                ∙ ap (λ l. drop (length l) left) (rows_are offset)
                ∙ drop-length-take n left in
              let fits : length (drop at rows) < fuel =
                let same : length (drop at rows) ≡ length (drop n left) = ap length next in
                omega (arith, length-drop n left, length-pos left more) in
              let reached : at ≤ length rows =
                let read : length (page offset).rows ≡ length (take n left) =
                  ap length (rows_are offset) in
                let parts : length (take n left) + length (drop n left) ≡ length left =
                  sym (length-append (take n left) (drop n left)) ∙ ap length (take-drop n left) in
                omega (arith, length-drop offset rows) in
              let (bs, whole, small, runs) =
                copy_pages-Writes fuel at (inserted offset w).1 reached fits in
              let total : at + length (drop at rows) ≡ offset + length left =
                let read : length (page offset).rows ≡ length (take n left) =
                  ap length (rows_are offset) in
                let parts : length (take n left) + length (drop n left) ≡ length left =
                  sym (length-append (take n left) (drop n left)) ∙ ap length (take-drop n left) in
                let same : length (drop at rows) ≡ length (drop n left) = ap length next in
                omega arith in
              (
                take n left ∷ bs,
                ap (λ l. take n left ++ l) (whole ∙ next) ∙ take-drop n left,
                one_more (length-take_le n left) small,
                copy_pages-more fuel offset w within (empty ∙ more)
                    ∙ runs
                    ∙ ap
                        (λ k. some (
                          record { total = k; failure = none },
                          write_all cols bs (inserted offset w).1,
                        ))
                        total
                    ∙ ap
                        (λ v. some (
                          record { total = offset + length left; failure = none },
                          write_all cols bs v,
                        ))
                        (inserted-batch offset w),
              )
        ]

    -- A table that its source serves in pages, and whose rows the target accepts, is copied whole, if the
    -- job is not cancelled meanwhile: the
    -- loop ends with the number of rows as its total and without an error, and the state is the one
    -- after one INSERT for each of some batches that are, one after the other, the rows of the table,
    -- none larger than the batch size. Fuel above the number of rows is enough.
    pub transfer_table-copies :
        (fuel : ℕ) (w : W)
        → length rows < fuel
        → (batches : List (List (List Value))) × (concat batches ≡ rows)
          × AreSmall job.batch_size batches
          × (transfer_table dbs print job t fuel w
              ≡ some (record { total = length rows; failure = none }, write_all cols batches w))
    unfolding transfer_table
    transfer_table-copies fuel w h =
        let (batches, whole, small, runs) = copy_pages-Writes fuel 0 w (omega arith) h in
        let total : 0 + length rows ≡ length rows = omega arith in
        (
          batches,
          whole,
          small,
          runs
              ∙ ap (λ k. some (record { total = k; failure = none }, write_all cols batches w))
                  total,
        )
