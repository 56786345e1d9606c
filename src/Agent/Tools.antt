-- ===== src/Agent/Tools.antt =====
-- internal/agent/handler.go: `executeTool` and the tools, over the guard gate that cmd/server passes to
-- `InitAgent`. The language model, the embedder and `%v` are parameters over a state W.
pub mod Scoped
pub mod Refused
use go_database.Base.{
  if◌then◌else◌, ◌>>=◌, is_nil, Str, str, str_eq, index, join, show_int, lookup, ℤ, pos, Bool, not,
  ◌||◌, Option, none, some, List, [], ◌∷◌, ◌++◌, map,
}
use Prim.Native.String.{String}
use mathlib.Core.Option
use go_database.Plugin.Types.{Value, Schema, Result, Reply, ok, err}
use go_database.Connection.Types.{Summary}
use go_database.Executor.Execute.{Manager}
use go_database.Executor.Gate.{Gate}
use go_database.Executor.Gate
use go_database.Agent.Text.{extract_sql, quote_ident}

-- A value of the JSON object of arguments; a number is what `int` makes of it.
pub data Arg : Type 0 where
  text_arg : Str → Arg
  number_arg : ℤ → Arg
  other_arg : Arg

abbrev pub Args : Type 0
Args = List (Str × Arg)

-- `toolCall`
pub record ToolCall : Type 0 where
  pub name : Str
  pub args : Args

-- `llm.Client` and `ai.Embedder`, whose vector is its numbers as `%g` prints them, with `%+v` of a schema
-- and `%v` of a cell.
pub record Model (W : Type 0) : Type 0 where
  pub complete : Str → W → Reply Str × W
  pub embed : Str → W → Reply (List Str) × W
  pub print_schema : Schema → Str
  pub print : Value → Str

-- What a tool returns.
pub data Output : Type 0 where
  connections : List Summary → Output
  rows : Result → Output
  names : List Str → Output
  described : Schema → Output
  answered : Str → Result → Output

abbrev as_text : Option Arg → Str
as_text none = []
as_text (some (text_arg s)) = s
as_text (some (number_arg _)) = []
as_text (some other_arg) = []

-- `args[key].(string)`, the empty text where it is none
unfoldable pub text_of : Str → Args → Str
unfolding lookup
text_of key args = as_text (lookup key args)

abbrev as_limit : Option Arg → ℤ
as_limit none = pos 5
as_limit (some (text_arg _)) = pos 5
as_limit (some (number_arg n)) = n
as_limit (some other_arg) = pos 5

unfoldable pub limit_of : Args → ℤ
unfolding lookup
limit_of args = as_limit (lookup (str "k") args)

-- `ai.PgVectorLiteral`
unfoldable pub pg_vector_literal : List Str → Str
unfolding join
pg_vector_literal v = str "[" ++ (join (str ",") v ++ str "]")

abbrev pub vector_sql : Str → Str → List Str → Str → ℤ → Str
vector_sql text_col emb_col vec table k =
    str "SELECT "
    ++ (quote_ident text_col
        ++ (str ", "
            ++ (quote_ident emb_col
                ++ (str " <=> '"
                    ++ (pg_vector_literal vec
                        ++ (str "' AS distance FROM "
                            ++ (quote_ident table
                                ++ (str " ORDER BY distance LIMIT " ++ show_int k))))))))

-- A row of `summarizeResult`; `none` where the row is shorter than the columns, at which the code panics.
summarize_row : (Value → Str) → Str → List Str → List Value → Option Str
summarize_row print sep [] cells = some (str "\n")
summarize_row print sep (col ∷ cols) [] = none
summarize_row print sep (col ∷ cols) (v ∷ cells) =
    Option.map (λ (rest : Str). sep ++ (col ++ (str "=" ++ (print v ++ rest))))
      (summarize_row print (str " | ") cols cells)

summarize_rows : (Value → Str) → List Str → List (List Value) → Option Str
unfolding summarize_row
summarize_rows print cols [] = some []
summarize_rows print cols (row ∷ rest) = summarize_row print [] cols row >>= λ line.
    Option.map (λ (more : Str). line ++ more) (summarize_rows print cols rest)

-- `summarizeResult`
unfoldable pub summarize_result : (Value → Str) → Result → Option Str
unfolding summarize_rows
summarize_result print r = summarize_rows print (Result.columns r) (Result.rows r)

-- The next step of a call chain, with the error of the step before wrapped.
abbrev pub bind_reply :
    {W A B : Type 0} → (Str → Str) → Reply A × W → (A → W → Reply B × W) → Reply B × W
bind_reply wrap (ok a, w) next = next a w
bind_reply wrap (err e, w) next = (err (wrap e), w)

abbrev pub same_error : Str → Str
same_error e = e

abbrev pub out : {W A : Type 0} → (A → Output) → Reply A × W → Reply Output × W
out f (ok a, w) = (ok (f a), w)
out f (err e, w) = (err e, w)

module _ {W : Type 0} (mgr : Manager W) (model : Model W) (elapsed : ℤ) where
  abbrev pub nl2sql_prompt : Schema → Str → Str
  nl2sql_prompt schema question =
      str "Database schema:\n"
      ++ (Model.print_schema model schema
          ++ (str "\n\nWrite a single SQL query that answers: "
              ++ (question ++ str "\nReturn only the SQL, no explanation, no markdown.")))

  abbrev pub run_sql : Gate → Str → Str → W → Reply Output × W
  run_sql g cid raw w =
      let sql = extract_sql raw in
      if is_nil sql
      then (err (str "nl2sql: could not parse SQL from: " ++ raw), w)
      else out rows (Gate.query mgr g cid sql w)

  -- `nl2sql`
  unfoldable pub nl2sql : Gate → Args → W → Reply Output × W
  unfolding text_of extract_sql
  nl2sql g args w =
      let cid = text_of (str "connection_id") args in
      let question = text_of (str "question") args in
      if is_nil cid || is_nil question
      then (err (str "nl2sql needs connection_id and question"), w)
      else bind_reply (λ e. str "nl2sql: schema: " ++ e) (Gate.schema mgr g cid w)
          (λ schema v.
            bind_reply (λ e. str "nl2sql: llm: " ++ e)
              (Model.complete model (nl2sql_prompt schema question) v)
              (λ raw u. run_sql g cid raw u))

  -- `vectorSearch`
  unfoldable pub vector_search : Gate → Args → W → Reply Result × W
  unfolding text_of limit_of
  vector_search g args w =
      let cid = text_of (str "connection_id") args in
      let table = text_of (str "table") args in
      let text_col = text_of (str "text_column") args in
      let emb_col = text_of (str "embedding_column") args in
      let q = text_of (str "query") args in
      if is_nil cid || (is_nil table || (is_nil text_col || (is_nil emb_col || is_nil q)))
      then (
        err (str "vector_search needs connection_id, table, text_column, embedding_column, query"),
        w,
      )
      else bind_reply (λ e. str "embed: " ++ e) (Model.embed model q w)
          (λ vec v. Gate.query mgr g cid (vector_sql text_col emb_col vec table (limit_of args)) v)

  abbrev pub rag_prompt : Str → Str → Str
  rag_prompt context question =
      str "Answer the question using ONLY the context below.\n\nContext:\n"
      ++ (context ++ (str "\n\nQuestion: " ++ question))

  abbrev pub rag_question : Args → Str
  rag_question args =
      if is_nil (text_of (str "question") args)
      then text_of (str "query") args
      else text_of (str "question") args

  -- The part of `rag` behind the search; a panic is an error here.
  abbrev pub rag_answer : Args → Result → W → Reply Output × W
  rag_answer args res w = elim (summarize_result (Model.print model) res) [
    | none ↦ (err (str "runtime error: index out of range"), w)
    | some context ↦
        bind_reply (λ e. str "llm generate: " ++ e)
          (Model.complete model (rag_prompt context (rag_question args)) w)
          (λ answer v. (ok (answered answer res), v))
  ]

  -- `rag`
  unfoldable pub rag : Gate → Args → W → Reply Output × W
  unfolding vector_search summarize_result text_of
  rag g args w = bind_reply same_error (vector_search g args w) (rag_answer args)

  abbrev pub is_tool : ToolCall → String → Bool
  is_tool call name = str_eq (ToolCall.name call) (str name)

  -- `executeTool`
  unfoldable pub execute_tool : Gate → ToolCall → W → Reply Output × W
  unfolding str_eq text_of nl2sql vector_search rag
  execute_tool g call w =
      let args = ToolCall.args call in
      let cid = text_of (str "connection_id") args in
      let sql = text_of (str "sql") args in
      if is_tool call "list_connections"
      then (ok (connections (Gate.list mgr g w)), w)
      else if is_tool call "query"
      then out rows (Gate.query mgr g cid sql w)
      else if is_tool call "execute"
      then out rows (Gate.execute mgr elapsed g cid sql w)
      else if is_tool call "list_tables"
      then out names (Gate.tables mgr g cid w)
      else if is_tool call "schema"
      then out described (Gate.schema mgr g cid w)
      else if is_tool call "list_databases"
      then out names (Gate.databases mgr g cid w)
      else if is_tool call "vector_search"
      then out rows (vector_search g args w)
      else if is_tool call "rag"
      then rag g args w
      else if is_tool call "nl2sql"
      then nl2sql g args w
      else (err (str "unknown tool: " ++ ToolCall.name call), w)
