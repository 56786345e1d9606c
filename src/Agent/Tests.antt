-- ===== src/Agent/Tests.antt =====
-- internal/agent: tests of the agent, over a manager whose state is the list of the connections called.
use go_database.Base.{
  Str, str, str_eq, has_prefix, has_suffix, index, contains, to_lower, trim_space, lookup, insert,
  elem, pos, ◌+◌, ◌≤◌, ◌≡◌, refl, Bool, true, false, Option, none, some, List, [], ◌∷◌, arith,
}
use go_database.Plugin.Types.{Result, Reply, ok, err}
use go_database.Executor.Execute.{Manager}
use go_database.Executor.Gate.{new_guard_gate}
use go_database.Agent.Text.{
  extract_sql, strip_fence, first_statement, trim_prefix, trim_suffix, last_index, clean_json,
  quote_ident, double_marks, is_correction,
}
use go_database.Agent.Text.Single.{is_single, extract_sql-is_single}
use go_database.Agent.Tools.{Args, text_arg, ToolCall, Model, text_of}
use go_database.Agent.Chat.{
  Turn, State, cut_history, add_user_turn, add_assistant_turn, user_turn, assistant_turn,
}
use go_database.Agent.Chat.History.{turns_of}
use go_database.Agent.Chat.Overlap.{is_within, run_steps-turns_of}
use go_database.Agent.Chat.Steps.{
  ChatStep, enter_step, user_step, gate_step, answer_step, leave_step, chat_step, run_step,
  run_steps,
}
use go_database.Executor.Gate.Keeps.{execute_call, query_call}

fenced : extract_sql (str "Here:\n```sql\nSELECT 1; DROP TABLE t;\n```\nDone") ≡ str "SELECT 1;"
unfolding extract_sql strip_fence first_statement trim_prefix trim_space index has_prefix
fenced = refl

thinking :
    clean_json (str "<think>{}</think> ```json\n{\"tool\":\"query\"}\n``` ok")
    ≡ str "{\"tool\":\"query\"}"
unfolding clean_json trim_prefix trim_suffix last_index trim_space index has_prefix has_suffix
thinking = refl

extract_sql-is_single_example : is_single (extract_sql (str "SELECT 1; DROP TABLE t;")) ≡ true
extract_sql-is_single_example = extract_sql-is_single (str "SELECT 1; DROP TABLE t;")

quoted : quote_ident (str "a\"b") ≡ str "\"a\"\"b\""
unfolding quote_ident double_marks
quoted = refl

corrects : is_correction (str "Nein, das ist FALSCH") ≡ true
unfolding is_correction to_lower contains index has_prefix
corrects = refl

abbrev touched : {A : Type 0} → A → Str → List Str → Reply A × List Str
touched a id w = (ok a, id ∷ w)

abbrev empty_result : Result
empty_result = record { columns = []; rows = []; rows_affected = pos 0; duration = pos 0 }

abbrev mgr : Manager (List Str)
mgr = record {
  list = λ w. [];
  list_visible = λ user scope admin w. [];
  get_connection = λ id w. err (str "none");
  query = λ id sql w. touched empty_result id w;
  execute = λ id sql w. touched empty_result id w;
  tables = λ id w. touched [] id w;
  schema = λ id w. touched (record { tables = [] }) id w;
  databases = λ id w. touched [] id w;
}

abbrev model : Model (List Str)
model = record {
  complete = λ prompt w. (ok (str "{}"), w);
  embed = λ text w. (ok (str "0.5" ∷ []), w);
  print_schema = λ schema. [];
  print = λ v. [];
}

-- The language model wants to drop a table of the connection `secret`.
abbrev drop_secret : Str → Option ToolCall
drop_secret json = some (record {
  name = str "execute";
  args =
      (str "connection_id", text_arg (str "secret"))
      ∷ (str "sql", text_arg (str "DROP TABLE t"))
      ∷ [];
})

abbrev unread : Str → Option ToolCall
unread json = none

abbrev fresh : State (List Str)
fresh = record { sessions = []; memory = some []; world = []; gate = new_guard_gate; held = [] }

abbrev scope : List Str
scope = str "c1" ∷ []

abbrev Unharmed : List Str → Type 0
Unharmed w = elem (str "secret") w ≡ false

-- The connections of two users.
abbrev reach : Str → Bool
reach id = elem id (str "c1" ∷ str "c2" ∷ [])

-- The second chat begins before the tool of the first runs; a third is alone.
abbrev overlapping : List ChatStep
overlapping =
    enter_step (str "a") (str "c1" ∷ []) false
    ∷ user_step (str "s") (str "drop it")
    ∷ enter_step (str "b") (str "c2" ∷ []) false
    ∷ gate_step (execute_call (str "secret") (str "DROP TABLE t"))
    ∷ gate_step (query_call (str "c2") (str "SELECT 1"))
    ∷ leave_step (str "a")
    ∷ leave_step (str "b")
    ∷ chat_step (str "c") 7 (str "s") (str "drop it") (str "c1" ∷ []) false
    ∷ []

abbrev said : Turn
said = record { role = str "user"; content = str "hi" }

-- A session of 18 turns, and two chats that overlap in it.
abbrev eighteen : State (List Str)
eighteen = record fresh {
  sessions =
      (
        str "s",
        said ∷ said ∷ said ∷ said ∷ said ∷ said ∷ said ∷ said ∷ said ∷ said ∷ said ∷ said ∷ said
            ∷ said ∷ said ∷ said ∷ said ∷ said ∷ [],
      )
      ∷ [];
}

abbrev two_chats : List ChatStep
two_chats =
    user_step (str "s") (str "one")
    ∷ user_step (str "s") (str "two")
    ∷ answer_step (str "s") (str "first")
    ∷ answer_step (str "s") (str "second")
    ∷ []

eighteen_short : turns_of (str "s") (State.sessions eighteen) ≤ 20 + 2
unfolding lookup str_eq
eighteen_short = omega arith

two_within : is_within 2 (str "s") 0 two_chats ≡ true
unfolding is_within str_eq
two_within = refl

run_steps-turns_of_example :
    turns_of
      (str "s")
      (State.sessions (run_steps mgr model (pos 0) drop_secret (λ o. []) two_chats eighteen))
    ≤ 20 + 2
run_steps-turns_of_example =
    run_steps-turns_of mgr model (pos 0) drop_secret (λ o. []) 2 (str "s") two_chats eighteen
      eighteen_short two_within

-- The bound is reached.
twenty_two :
    turns_of
      (str "s")
      (State.sessions (run_steps mgr model (pos 0) drop_secret (λ o. []) two_chats eighteen))
    ≡ 22
unfolding run_steps run_step user_turn assistant_turn add_user_turn add_assistant_turn cut_history
    lookup insert str_eq
twenty_two = refl

abbrev rag_args : Args
rag_args =
    (str "connection_id", text_arg (str "c1"))
    ∷ (str "table", text_arg (str "docs"))
    ∷ (str "text_column", text_arg (str "body"))
    ∷ (str "embedding_column", text_arg (str "emb"))
    ∷ (str "question", text_arg (str "why"))
    ∷ []

no_query : text_of (str "query") rag_args ≡ []
unfolding text_of lookup str_eq
no_query = refl
