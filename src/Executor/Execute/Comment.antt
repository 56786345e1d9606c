-- ===== src/Executor/Execute/Comment.antt =====
-- internal/executor/executor.go: `Execute` on a statement behind a line comment.
use go_database.Base.{
  Bool-cases, is_nil, Str, str, has_prefix, to_upper, trim_space, trim_space-cons, ℤ, ◌≡◌, refl, ap,
  ◌∙◌, inl, inr, true, false, none, ◌++◌,
}
use go_database.Plugin.Types.{Reply, ok, err, Result}
use go_database.Suggest.Types.{risk_medium, RiskLevel}
use go_database.Suggest.Risk.{classify}
use go_database.Suggest.Risk.Levels.{classify-comment}
use go_database.Executor.Execute.{
  Manager, ExecutionRequest, estimate_affected, is_query, run_statement, run_end, check_medium,
  execute_classified, execute,
}

comment_start : (s : Str) → has_prefix (trim_space (to_upper (str "--" ++ s))) (str "--") ≡ true
unfolding to_upper has_prefix
comment_start s = let (r, e) = trim_space-cons b'-' b'-' (to_upper s) refl refl in rw e refl

module _ {W : Type 0} (mgr : Manager W) where
  estimate_affected-comment :
      (id rest : Str) (w : W) → estimate_affected mgr id (str "--" ++ rest) w ≡ (none, w)
  unfolding estimate_affected to_upper has_prefix
  estimate_affected-comment id rest w =
      let (r, e) = trim_space-cons b'-' b'-' rest refl refl in rw e refl

  run_end-world :
      (elapsed : ℤ) (risk : RiskLevel) (info : Str) (out : Reply Result × W)
      → (run_end mgr elapsed risk info out).1 ≡ out.1
  run_end-world elapsed risk info (ok r, w) = refl
  run_end-world elapsed risk info (err e, w) = refl

  run_statement-write :
      (elapsed : ℤ) (id sql : Str) (risk : RiskLevel) (info : Str) (w : W)
      → is_query mgr sql ≡ false
      → (run_statement mgr elapsed id sql risk info w).1 ≡ (mgr.execute id sql w).1
  unfolding run_statement
  run_statement-write elapsed id sql risk info w q =
      rw q (run_end-world elapsed risk info (mgr.execute id sql w))

  classified_medium :
      (elapsed : ℤ) (req : ExecutionRequest) (sql info : Str) (w : W)
      → estimate_affected mgr req.connection_id sql w ≡ (none, w)
      → is_query mgr sql ≡ false
      → (execute_classified mgr elapsed req sql (risk_medium, info) w).1
        ≡ (mgr.execute req.connection_id sql w).1
  unfolding execute_classified check_medium
  classified_medium elapsed req sql info w est q =
      let ran = run_statement-write elapsed req.connection_id sql risk_medium info w q in
      elim (Bool-cases req.confirm_high) [
        | inl c ↦ rw (c, execute_classified) ran
        | inr c ↦ rw (c, execute_classified, est) ran
      ]

  -- A text that begins with a line comment, and that is not a query behind its comments, is run as it
  -- stands, confirmed or not.
  pub execute-comment :
      (elapsed : ℤ) (req : ExecutionRequest) (rest : Str) (w : W)
      → trim_space req.sql ≡ str "--" ++ rest
      → is_query mgr (trim_space req.sql) ≡ false
      → (execute mgr elapsed req w).1 ≡ (mgr.execute req.connection_id (trim_space req.sql) w).1
  unfolding execute
  execute-comment elapsed req rest w e q =
      let medium = ap classify e ∙ classify-comment (str "--" ++ rest) (inl (comment_start rest)) in
      let est =
        ap (λ s. estimate_affected mgr req.connection_id s w) e
        ∙ estimate_affected-comment req.connection_id rest w in
      let some_text : is_nil (trim_space req.sql) ≡ false = rw e refl in
      rw (some_text, execute, medium)
        (classified_medium elapsed req (trim_space req.sql) (str "Unknown operation") w est q)
