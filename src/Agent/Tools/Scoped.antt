-- ===== src/Agent/Tools/Scoped.antt =====
-- internal/agent/handler.go: what the tools do to the databases.
use go_database.Base.{
  if◌then◌else◌, Bool-cases, Option-cases, is_nil, Str, str, ℤ, inl, inr, Bool, true, false, ◌||◌,
}
use go_database.Plugin.Types.{Result, Reply, ok, err}
use go_database.Executor.Execute.{Manager}
use go_database.Executor.Gate
use go_database.Executor.Gate.Keeps.{
  IsKept, query-keeps, gate_execute-keeps, schema-keeps, tables-keeps, databases-keeps,
}
use go_database.Executor.Gate.{Gate, allowed, guarded, gate_reply}
use go_database.Agent.Text.{extract_sql}
use go_database.Agent.Tools.{
  Args, ToolCall, Model, Output, text_of, bind_reply, out, nl2sql, vector_search, rag, execute_tool,
  rag_answer, run_sql, vector_sql, limit_of, same_error, nl2sql_prompt, rows, names, described,
  summarize_result, rag_prompt, rag_question, is_tool,
}

module _ {W : Type 0} (P : W → Type 0) where
  bind_reply-keeps :
      {A B : Type 0} (wrap : Str → Str) (r : Reply A × W) (next : A → W → Reply B × W)
      → P r.1
      → ((a : A) (v : W) → P v → P (next a v).1)
      → P (bind_reply wrap r next).1
  bind_reply-keeps wrap (ok a, w) next p keeps = keeps a w p
  bind_reply-keeps wrap (err e, w) next p keeps = p

  out-keeps : {A : Type 0} (f : A → Output) (r : Reply A × W) → P r.1 → P (out f r).1
  out-keeps f (ok a, w) p = p
  out-keeps f (err e, w) p = p

  if-keeps : {A : Type 0} (b : Bool) (x y : A × W) → P x.1 → P y.1 → P (if b then x else y).1
  if-keeps true x y p q = p
  if-keeps false x y p q = q

module _ {W : Type 0} (mgr : Manager W) (model : Model W) (elapsed : ℤ) (g : Gate) (P : W → Type 0)
    (complete_keeps : (prompt : Str) (v : W) → P v → P (Model.complete model prompt v).1)
    (embed_keeps : (text : Str) (v : W) → P v → P (Model.embed model text v).1)
    (kept : IsKept mgr P (allowed g)) where
  run_sql-keeps : (cid raw : Str) (w : W) → P w → P (run_sql mgr model elapsed g cid raw w).1
  run_sql-keeps cid raw w p = elim (Bool-cases (is_nil (extract_sql raw))) [
    | inl empty ↦ rw empty p
    | inr sql ↦ rw sql (
        out-keeps P rows (Gate.query mgr g cid (extract_sql raw) w)
          (query-keeps mgr elapsed g P kept cid (extract_sql raw) w p))
  ]

  nl2sql-keeps : (args : Args) (w : W) → P w → P (nl2sql mgr model elapsed g args w).1
  unfolding nl2sql
  nl2sql-keeps args w p =
      let cid = text_of (str "connection_id") args in
      let question = text_of (str "question") args in
      elim (Bool-cases (is_nil cid || is_nil question)) [
        | inl missing ↦ rw (nl2sql, missing) p
        | inr given ↦
            rw (nl2sql, given)
              (bind_reply-keeps P _ (Gate.schema mgr g cid w) _
                (schema-keeps mgr elapsed g P kept cid w p)
                (λ schema v q.
                  bind_reply-keeps P _
                    (Model.complete model (nl2sql_prompt mgr model elapsed schema question) v) _
                    (complete_keeps (nl2sql_prompt mgr model elapsed schema question) v q)
                    (λ raw u r. run_sql-keeps cid raw u r)))
      ]

  vector_search-keeps : (args : Args) (w : W) → P w → P (vector_search mgr model elapsed g args w).1
  unfolding vector_search
  vector_search-keeps args w p =
      let cid = text_of (str "connection_id") args in
      let table = text_of (str "table") args in
      let text_col = text_of (str "text_column") args in
      let emb_col = text_of (str "embedding_column") args in
      let q = text_of (str "query") args in
      elim (Bool-cases
        (is_nil cid || (is_nil table || (is_nil text_col || (is_nil emb_col || is_nil q))))) [
          | inl missing ↦ rw (vector_search, missing) p
          | inr given ↦
              rw (vector_search, given)
                (bind_reply-keeps P _ (Model.embed model q w) _ (embed_keeps q w p) (λ vec v r.
                  query-keeps mgr elapsed g P kept cid
                    (vector_sql text_col emb_col vec table (limit_of args)) v r))
        ]

  rag_answer-keeps :
      (args : Args) (res : Result) (w : W) → P w → P (rag_answer mgr model elapsed args res w).1
  rag_answer-keeps args res w p = elim (Option-cases (summarize_result (Model.print model) res)) [
    | inl panics ↦ rw (rag_answer, panics) p
    | inr (context, text) ↦
        rw (rag_answer, text)
          (bind_reply-keeps P _
            (Model.complete model
              (rag_prompt mgr model elapsed context (rag_question mgr model elapsed args)) w)
            _ (complete_keeps _ w p) (λ answer v q. q))
  ]

  rag-keeps : (args : Args) (w : W) → P w → P (rag mgr model elapsed g args w).1
  unfolding rag
  rag-keeps args w p =
      bind_reply-keeps P same_error (vector_search mgr model elapsed g args w)
        (rag_answer mgr model elapsed args) (vector_search-keeps args w p) (rag_answer-keeps args)

  -- The agent works in its scope: what the language model, the embedder and the calls for the allowed
  -- connections keep, every tool keeps, whatever its name and arguments.
  pub execute_tool-keeps :
      (call : ToolCall) (w : W) → P w → P (execute_tool mgr model elapsed g call w).1
  unfolding execute_tool
  execute_tool-keeps call w p =
      let args = ToolCall.args call in
      let cid = text_of (str "connection_id") args in
      let sql = text_of (str "sql") args in
      if-keeps P (is_tool mgr model elapsed call "list_connections") _ _ p (
        if-keeps P (is_tool mgr model elapsed call "query") _ _
          (out-keeps P rows (Gate.query mgr g cid sql w)
            (query-keeps mgr elapsed g P kept cid sql w p))
          (if-keeps P (is_tool mgr model elapsed call "execute") _ _
            (out-keeps P rows (Gate.execute mgr elapsed g cid sql w)
              (gate_execute-keeps mgr elapsed g P kept cid sql w p))
            (if-keeps P (is_tool mgr model elapsed call "list_tables") _ _
              (out-keeps P names (Gate.tables mgr g cid w)
                (tables-keeps mgr elapsed g P kept cid w p))
              (if-keeps P (is_tool mgr model elapsed call "schema") _ _
                (out-keeps P described (Gate.schema mgr g cid w)
                  (schema-keeps mgr elapsed g P kept cid w p))
                (if-keeps P (is_tool mgr model elapsed call "list_databases") _ _
                  (out-keeps P names (Gate.databases mgr g cid w)
                    (databases-keeps mgr elapsed g P kept cid w p))
                  (if-keeps P (is_tool mgr model elapsed call "vector_search") _ _
                    (out-keeps P rows (vector_search mgr model elapsed g args w)
                      (vector_search-keeps args w p))
                    (if-keeps P (is_tool mgr model elapsed call "rag") _ _ (rag-keeps args w p) (
                      if-keeps P (is_tool mgr model elapsed call "nl2sql") _ _
                        (nl2sql-keeps args w p) p))))))))
