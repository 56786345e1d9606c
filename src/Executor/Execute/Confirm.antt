-- ===== src/Executor/Execute/Confirm.antt =====
-- internal/executor/executor.go: the confirmation of dangerous statements.
use go_database.Base.{
  Bool-cases, Option-cases, is_nil, Str, str, has_prefix, index, to_upper, trim_space, ℤ, ◌≡◌, refl,
  ◌⊎◌, inl, inr, true, false, ◌||◌, arith,
}
use go_database.Suggest.Types.{risk_high, is_high}
use go_database.Suggest.Risk.{classify}
use go_database.Executor.Execute.{
  Manager, ExecutionRequest, estimate_affected, estimate_sql, run_statement, check_medium,
  execute_classified, execute,
}

module _ {W : Type 0} (mgr : Manager W) where
  -- What every query keeps is kept by the estimate.
  estimate_affected-keeps :
      (P : W → Type 0)
      → ((id q : Str) (w : W) → P w → P (mgr.query id q w).1)
      → (id sql : Str) (w : W) → P w
      → P (estimate_affected mgr id sql w).1
  unfolding estimate_affected
  estimate_affected-keeps P keeps id sql w p =
      let upper = to_upper (trim_space sql) in
      elim (Bool-cases (has_prefix upper (str "DELETE") || has_prefix upper (str "UPDATE"))) [
        | inr n ↦ rw (n, estimate_affected) p
        | inl y ↦ elim (Option-cases (index upper (str "FROM"))) [
          | inl e ↦ rw (y, estimate_affected, e) p
          | inr (i, e) ↦ rw (y, estimate_affected, e) (keeps id (estimate_sql sql i) w p)
        ]
      ]

  -- A statement of high risk without confirmation is not run: the answer asks for confirmation, and
  -- whatever holds of the databases and is kept by queries holds afterwards, whatever the calls that
  -- write would do.
  pub execute-high :
      (P : W → Type 0) (elapsed : ℤ) (req : ExecutionRequest) (w : W)
      → ((id q : Str) (v : W) → P v → P (mgr.query id q v).1)
      → is_nil (trim_space req.sql) ≡ false
      → (classify (trim_space req.sql)).0 ≡ risk_high
      → req.confirm_high ≡ false
      → P w
      → ((execute mgr elapsed req w).0.success ≡ false)
        × ((execute mgr elapsed req w).0.needs_confirm ≡ true)
        × P (execute mgr elapsed req w).1
  unfolding execute execute_classified
  execute-high P elapsed req w keeps n h c p =
      let sql = trim_space req.sql in
      let kept = estimate_affected-keeps P keeps req.connection_id sql w p in
      rw (n, execute, h, execute_classified, c) (refl, refl, kept)

  -- A success means that the statement was of low or medium risk, or that it was confirmed, and that
  -- nothing is left to confirm.
  execute-success :
      (elapsed : ℤ) (req : ExecutionRequest) (w : W)
      → (execute mgr elapsed req w).0.success ≡ true
      → ((is_high (classify (trim_space req.sql)).0 ≡ false) ⊎ (req.confirm_high ≡ true))
        × ((execute mgr elapsed req w).0.needs_confirm ≡ false)
  unfolding execute execute_classified check_medium run_statement
  execute-success elapsed req w h = ground arith
