-- ===== src/Agent/Tools/Refused.antt =====
-- internal/agent/handler.go: calls that `vectorSearch` and `nl2sql` refuse.
use go_database.Base.{is_nil, str, ℤ, ◌≡◌, refl, Bool, true, ◌||◌, [], arith}
use go_database.Plugin.Types.{err}
use go_database.Executor.Execute.{Manager}
use go_database.Executor.Gate.{Gate}
use go_database.Agent.Tools.{Args, Model, text_of, nl2sql, vector_search, rag}

last_missing : (a b c d e : Bool) → e ≡ true → (a || (b || (c || (d || e)))) ≡ true
last_missing a b c d e h = ground (arith, h)

module _ {W : Type 0} (mgr : Manager W) (model : Model W) (elapsed : ℤ) (g : Gate) (args : Args)
    (w : W) where
  -- `rag` fails for arguments without a `query`, such as those that the list of tools names for it, before
  -- it asks the embedder, the databases or the language model.
  rag-no_query :
      text_of (str "query") args ≡ []
      → rag mgr model elapsed g args w ≡ (
        err (str "vector_search needs connection_id, table, text_column, embedding_column, query"),
        w,
      )
  unfolding rag vector_search
  rag-no_query none_given =
      let empty : is_nil (text_of (str "query") args) ≡ true = rw none_given refl in
      rw
        (
          vector_search,
          last_missing (is_nil (text_of (str "connection_id") args))
              (is_nil (text_of (str "table") args)) (is_nil (text_of (str "text_column") args))
              (is_nil (text_of (str "embedding_column") args)) (is_nil (text_of (str "query") args))
              empty,
        )
        refl

  pub nl2sql-no_connection :
      text_of (str "connection_id") args ≡ []
      → nl2sql mgr model elapsed g args w ≡ (err (str "nl2sql needs connection_id and question"), w)
  unfolding nl2sql
  nl2sql-no_connection none_given = rw (nl2sql, none_given) refl
