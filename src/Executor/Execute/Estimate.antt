-- ===== src/Executor/Execute/Estimate.antt =====
-- internal/executor/executor.go: the query of `estimateAffected`.
use go_database.Base.{
  drop, Str, str, has_prefix, index, to_upper, trim_space, index_sound, drop-to_upper, ℕ, ◌≡◌, true,
  ◌||◌, some,
}
use go_database.Executor.Execute.{Manager, estimate_affected, estimate_sql}

estimate_sql-from :
    (sql : Str) (i : ℕ)
    → has_prefix (to_upper (drop i sql)) (str "FROM") ≡ true
    → has_prefix (to_upper (estimate_sql sql i)) (str "SELECT COUNT(*) AS ESTIMATE FROM FROM")
      ≡ true
unfolding has_prefix to_upper
estimate_sql-from sql i h = h

-- The rows that a trimmed DELETE or UPDATE with a FROM affects are counted by a query that begins,
-- up to case, with "SELECT COUNT(*) AS ESTIMATE FROM FROM", which names FROM twice; the count
-- changes the databases as that query does.
estimate_affected-from :
    {W : Type 0} (mgr : Manager W) (id sql : Str) (i : ℕ) (w : W)
    → trim_space sql ≡ sql
    → (has_prefix (to_upper sql) (str "DELETE") || has_prefix (to_upper sql) (str "UPDATE")) ≡ true
    → index (to_upper sql) (str "FROM") ≡ some i
    → (q : Str) × (has_prefix (to_upper q) (str "SELECT COUNT(*) AS ESTIMATE FROM FROM") ≡ true)
      × ((estimate_affected mgr id sql w).1 ≡ (mgr.query id q w).1)
unfolding estimate_affected
estimate_affected-from mgr id sql i w t d e =
    let starts : has_prefix (to_upper (drop i sql)) (str "FROM") ≡ true =
      rw (← drop-to_upper i sql) (index_sound (to_upper sql) (str "FROM") i e) in
    (estimate_sql sql i, estimate_sql-from sql i starts, rw (t, d, estimate_affected, e))
