-- ===== src/Executor/Execute/Keeps.antt =====
-- internal/executor/executor.go: `Execute` calls the databases under the connection of the request only.
use go_database.Base.{
  Bool-cases, Option-cases, is_nil, Str, str, has_prefix, index, to_upper, trim_space, ltb_ℤ, ℤ,
  pos, ◌≡◌, inl, inr, not, ◌&&◌, ◌||◌, Option, none, some,
}
use go_database.Plugin.Types.{Result, Reply, ok, err}
use go_database.Suggest.Types.{RiskLevel, is_high, is_medium}
use go_database.Suggest.Risk.{classify}
use go_database.Executor.Execute.{
  Manager, ExecutionRequest, is_query, estimate_affected, run_statement, run_end, after_count,
  estimate_sql, check_medium, execute_classified, execute, ask_high,
}

module _ {W : Type 0} (mgr : Manager W) (P : W → Type 0) (id : Str)
    (query_keeps : (sql : Str) (v : W) → P v → P (Manager.query mgr id sql v).1)
    (execute_keeps : (sql : Str) (v : W) → P v → P (Manager.execute mgr id sql v).1) where
  run_end-keeps :
      (elapsed : ℤ) (risk : RiskLevel) (info : Str) (out : Reply Result × W)
      → P out.1
      → P (run_end mgr elapsed risk info out).1
  run_end-keeps elapsed risk info (ok r, w) p = p
  run_end-keeps elapsed risk info (err e, w) p = p

  run_statement-keeps :
      (elapsed : ℤ) (sql : Str) (risk : RiskLevel) (info : Str) (w : W)
      → P w
      → P (run_statement mgr elapsed id sql risk info w).1
  unfolding run_statement
  run_statement-keeps elapsed sql risk info w p = elim (Bool-cases (is_query mgr sql)) [
    | inl reads ↦
        rw (run_statement, reads) (run_end-keeps elapsed risk info _ (query_keeps sql w p))
    | inr writes ↦
        rw (run_statement, writes) (run_end-keeps elapsed risk info _ (execute_keeps sql w p))
  ]

  after_count-keeps :
      (upper : Str) (out : Reply Result × W) → P out.1 → P (after_count mgr upper out).1
  after_count-keeps upper (r, w) p = p

  estimate_affected-keeps : (sql : Str) (w : W) → P w → P (estimate_affected mgr id sql w).1
  unfolding estimate_affected
  estimate_affected-keeps sql w p =
      let upper = to_upper (trim_space sql) in
      elim (Bool-cases (has_prefix upper (str "DELETE") || has_prefix upper (str "UPDATE"))) [
        | inr other ↦ rw (estimate_affected, other) p
        | inl counts ↦ elim (Option-cases (index upper (str "FROM"))) [
          | inl absent ↦ rw (estimate_affected, counts, absent) p
          | inr (i, present) ↦
              rw (estimate_affected, counts, present)
                (after_count-keeps upper (Manager.query mgr id (estimate_sql sql i) w)
                  (query_keeps (estimate_sql sql i) w p))
        ]
      ]

  check_medium-keeps :
      (elapsed : ℤ) (sql : Str) (risk : RiskLevel) (info : Str) (out : Option Result × W)
      → P out.1
      → P (check_medium mgr elapsed id sql risk info out).1
  unfolding check_medium
  check_medium-keeps elapsed sql risk info (none, w) p =
      run_statement-keeps elapsed sql risk info w p
  check_medium-keeps elapsed sql risk info (some r, w) p =
      elim (Bool-cases (ltb_ℤ (pos 100) (Result.rows_affected r))) [
        | inl large ↦ rw (check_medium, large) p
        | inr small ↦ rw (check_medium, small) (run_statement-keeps elapsed sql risk info w p)
      ]

  ask_high-keeps :
      (risk : RiskLevel) (info : Str) (out : Option Result × W)
      → P out.1
      → P (ask_high mgr risk info out).1
  ask_high-keeps risk info (affected, w) p = p

  execute_classified-keeps :
      (elapsed : ℤ) (req : ExecutionRequest) (sql : Str) (verdict : RiskLevel × Str) (w : W)
      → ExecutionRequest.connection_id req ≡ id
      → P w
      → P (execute_classified mgr elapsed req sql verdict w).1
  unfolding execute_classified
  execute_classified-keeps elapsed req sql (risk, info) w same p =
      elim (Bool-cases (is_high risk && not (ExecutionRequest.confirm_high req))) [
        | inl high ↦
            rw (execute_classified, high, same)
              (ask_high-keeps risk info (estimate_affected mgr id sql w)
                (estimate_affected-keeps sql w p))
        | inr low ↦ elim (Bool-cases (is_medium risk && not (ExecutionRequest.confirm_high req))) [
          | inl medium ↦
              rw (execute_classified, low, medium, same)
                (check_medium-keeps elapsed sql risk info (estimate_affected mgr id sql w)
                  (estimate_affected-keeps sql w p))
          | inr other ↦
              rw (execute_classified, low, other, same)
                (run_statement-keeps elapsed sql risk info w p)
        ]
      ]

  -- Whatever the calls for a connection keep, `Execute` keeps for a request of that connection.
  pub execute-keeps :
      (elapsed : ℤ) (req : ExecutionRequest) (w : W)
      → ExecutionRequest.connection_id req ≡ id
      → P w
      → P (execute mgr elapsed req w).1
  unfolding execute
  execute-keeps elapsed req w same p =
      elim (Bool-cases (is_nil (trim_space (ExecutionRequest.sql req)))) [
        | inl empty ↦ rw (execute, empty) p
        | inr sql ↦
            rw (execute, sql)
              (execute_classified-keeps elapsed req (trim_space (ExecutionRequest.sql req))
                (classify (trim_space (ExecutionRequest.sql req))) w same p)
      ]
