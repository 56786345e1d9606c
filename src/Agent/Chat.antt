-- ===== src/Agent/Chat.antt =====
-- internal/agent/handler.go: `HandleChat`, with the sessions, the memory and the gate of the agent. The
-- language model's JSON is read by the parameter `parse`; the audit log is not modelled. A chat swaps the
-- one gate of the agent and gives the lock on the sessions back between its turns: what it does to the
-- agent is one function for each part, and chats that overlap are in the module Steps.
pub mod Steps
pub mod History
pub mod Overlap
pub mod Fallback
pub mod Scope
use go_database.Base.{
  leb, if◌then◌else◌, length, drop, is_nil, all, Str, str, lookup, insert, remove, ℤ, ℕ, ◌-◌, Bool,
  Option, none, some, List, [], ◌∷◌, ◌++◌,
}
use Prim.Native.String.{String}
use go_database.Plugin.Types.{Reply, ok, err}
use go_database.Executor.Execute.{Manager}
use go_database.Executor.Gate.{Gate, with_scope}
use go_database.Agent.Text.{clean_json, truncate, is_correction}
use go_database.Agent.Memory.{MemoryEntry, remember, context_prompt}
use go_database.Agent.Tools.{Args, text_arg, ToolCall, Model, Output, bind_reply, execute_tool}

-- `chatTurn`
pub record Turn : Type 0 where
  pub role : Str
  pub content : Str

abbrev pub Sessions : Type 0
Sessions = List (Str × List Turn)

-- The agent: its sessions, its memory where it has one, the world of its clients and its gate; and the
-- variable `_old` of each chat that runs, under a name of the chat.
pub record State (W : Type 0) : Type 0 where
  pub sessions : Sessions
  pub memory : Option (List MemoryEntry)
  pub world : W
  pub gate : Gate
  pub held : List (Str × Gate)

pub record ChatResponse : Type 0 where
  pub tool : Str
  pub args : Args
  pub result : Output
  pub summary : Str
  pub session_id : Str

-- `ToolDef`
pub record ToolDef : Type 0 where
  pub name : Str
  pub description : Str
  pub input_schema : Str

abbrev tool : String → String → String → ToolDef
tool name description input_schema = record {
  name = str name;
  description = str description;
  input_schema = str input_schema;
}

abbrev pub available_tools : List ToolDef
available_tools =
    tool "list_connections" "List all database connections" "{}"
    ∷ tool "query" "Run a SELECT query on a connection"
        "{\"connection_id\":\"string\",\"sql\":\"string\"}"
    ∷ tool "execute" "Run INSERT/UPDATE/DELETE/DDL"
        "{\"connection_id\":\"string\",\"sql\":\"string\"}"
    ∷ tool "list_tables" "List tables in a connection" "{\"connection_id\":\"string\"}"
    ∷ tool "schema" "Show schema for a connection" "{\"connection_id\":\"string\"}"
    ∷ tool "list_databases" "List databases on a connection" "{\"connection_id\":\"string\"}"
    ∷ tool "nl2sql" "Convert natural language to SQL"
        "{\"connection_id\":\"string\",\"question\":\"string\",\"schema_hint?\":\"string\"}"
    ∷ tool "vector_search"
        "Semantic search over a pgvector table: find rows most similar to a query"
        "{\"connection_id\":\"string\",\"table\":\"string\",\"text_column\":\"string\",\"embedding_column\":\"string\",\"query\":\"string\",\"k?\":\"int\"}"
    ∷ tool "rag"
        "Retrieve relevant context via vector_search then ask the LLM to answer a question from it"
        "{\"connection_id\":\"string\",\"table\":\"string\",\"text_column\":\"string\",\"embedding_column\":\"string\",\"question\":\"string\",\"k?\":\"int\"}"
    ∷ []

abbrev tool_line : ToolDef → Str
tool_line t =
    str "- "
    ++ (ToolDef.name t
        ++ (str ": "
            ++ (ToolDef.description t
                ++ (str " (args: " ++ (ToolDef.input_schema t ++ str ")\n")))))

tool_lines : List ToolDef → Str
tool_lines [] = []
tool_lines (t ∷ ts) = tool_line t ++ tool_lines ts

abbrev memory_prompt : Option (List MemoryEntry) → Str
memory_prompt none = []
memory_prompt (some entries) = context_prompt 10 entries

-- `buildPrompt`
unfoldable pub build_prompt : Option (List MemoryEntry) → Str → Str
unfolding tool_lines context_prompt
build_prompt memory msg =
    str "You are an AI database assistant. You have these tools:\n\n"
    ++ (tool_lines available_tools
        ++ (memory_prompt memory
            ++ (str "\nGiven the user request, respond with EXACTLY a JSON object:\n"
                ++ (str "{\"tool\":\"tool_name\",\"args\":{\"arg1\":\"val1\",...}}\n"
                    ++ (str "Only one tool call. No explanation. Valid JSON only.\n\n"
                        ++ (str "User: " ++ msg))))))

abbrev pub max_history : ℕ
max_history = 20

abbrev pub history_of : Option (List Turn) → List Turn
history_of none = []
history_of (some turns) = turns

-- The last ten turns of a history that is full.
unfoldable pub cut_history : List Turn → List Turn
cut_history turns = if leb max_history (length turns) then drop (length turns - 10) turns else turns

unfoldable pub add_user_turn : Str → Str → Sessions → Sessions
unfolding cut_history lookup insert
add_user_turn sid msg sessions =
    insert sid
      (cut_history (history_of (lookup sid sessions))
        ++ record { role = str "user"; content = msg } ∷ [])
      sessions

unfoldable pub add_assistant_turn : Str → Str → Sessions → Sessions
unfolding lookup insert
add_assistant_turn sid summary sessions =
    insert sid
      (history_of (lookup sid sessions)
        ++ record { role = str "assistant"; content = summary } ∷ [])
      sessions

unfoldable pub remember_message :
    ℕ → Str → Str → Option (List MemoryEntry) → Option (List MemoryEntry)
unfolding is_correction remember
remember_message now msg sid none = none
remember_message now msg sid (some entries) =
    some (remember now (if is_correction msg then str "correction" else str "fact") msg sid entries)

abbrev pub fallback_call : Str → ToolCall
fallback_call msg = record {
  name = str "nl2sql";
  args = (str "question", text_arg msg) ∷ (str "connection_id", text_arg []) ∷ [];
}

-- The part of `decideTool` behind the answer.
unfoldable pub read_call : (Str → Option ToolCall) → Str → Str → Reply ToolCall
unfolding clean_json
read_call parse msg answer = elim (parse (clean_json answer)) [
  | none ↦ ok (fallback_call msg)
  | some call ↦
      if is_nil (ToolCall.name call)
      then err (str "LLM returned no tool name: " ++ clean_json answer)
      else ok call
]

module _ {W : Type 0} where
  -- The swap of the gate, a `GuardGate`, for the scoped one; its reads and its write are one step.
  unfoldable pub enter_chat : Str → List Str → Bool → State W → State W
  unfolding insert
  enter_chat r db_access is_admin s = record s {
    gate = with_scope (State.gate s) db_access is_admin;
    held = insert r (State.gate s) (State.held s);
  }

  -- The deferred `agent.gate = _old`
  unfoldable pub leave_chat : Str → State W → State W
  unfolding lookup remove
  leave_chat r s = elim (lookup r (State.held s)) [
    | none ↦ s
    | some old ↦ record s { gate = old; held = remove r (State.held s) }
  ]

  -- The turn of the user, under the lock.
  unfoldable pub user_turn : Str → Str → State W → State W
  unfolding add_user_turn
  user_turn sid msg s = record s { sessions = add_user_turn sid msg (State.sessions s) }

  unfoldable pub remember_turn : ℕ → Str → Str → State W → State W
  unfolding remember_message
  remember_turn now msg sid s = record s { memory = remember_message now msg sid (State.memory s) }

  -- The turn of the assistant, under the lock.
  unfoldable pub assistant_turn : Str → Str → State W → State W
  unfolding add_assistant_turn
  assistant_turn sid summary s = record s {
    sessions = add_assistant_turn sid summary (State.sessions s);
  }

module _ {W : Type 0} (mgr : Manager W) (model : Model W) (elapsed : ℤ)
    (parse : Str → Option ToolCall) (show : Output → Str) where
  abbrev pub after_answer : Str → Reply Str × W → Reply ToolCall × W
  after_answer msg (err e, w) = (err e, w)
  after_answer msg (ok answer, w) = (read_call parse msg answer, w)

  -- `decideTool`
  unfoldable pub decide_tool : Option (List MemoryEntry) → Str → W → Reply ToolCall × W
  unfolding build_prompt read_call
  decide_tool memory msg w = after_answer msg (Model.complete model (build_prompt memory msg) w)

  -- `%s → %s` with the arrow in UTF-8
  abbrev pub summary_of : ToolCall → Output → Str
  summary_of call result =
      ToolCall.name call ++ (str " " ++ (226 ∷ 134 ∷ 146 ∷ str " " ++ truncate (show result) 200))

  abbrev response : Str → ToolCall → Output → ChatResponse
  response sid call result = record {
    tool = ToolCall.name call;
    args = ToolCall.args call;
    result = result;
    summary = summary_of call result;
    session_id = sid;
  }

  -- The parts of `HandleChat` behind the call of the tool, and behind the decision; the tool goes
  -- through the gate that the agent has then.
  abbrev pub after_tool : Str → ToolCall → State W → Reply Output × W → Reply ChatResponse × State W
  after_tool sid call s (err e, w) = (err (str "execute: " ++ e), record s { world = w })
  after_tool sid call s (ok result, w) = (
    ok (response sid call result),
    assistant_turn sid (summary_of call result) (record s { world = w }),
  )

  abbrev pub after_decision : Str → State W → Reply ToolCall × W → Reply ChatResponse × State W
  after_decision sid s (err e, w) = (err (str "decision: " ++ e), record s { world = w })
  after_decision sid s (ok call, w) =
      after_tool sid call s (execute_tool mgr model elapsed (State.gate s) call w)

  -- The part of `HandleChat` behind the turn of the user.
  unfoldable pub answer_chat : Str → Str → State W → Reply ChatResponse × State W
  unfolding decide_tool
  answer_chat sid msg s = after_decision sid s (decide_tool (State.memory s) msg (State.world s))

  abbrev pub begin_chat : Str → ℕ → Str → Str → List Str → Bool → State W → State W
  begin_chat r now sid msg db_access is_admin s =
      remember_turn now msg sid (user_turn sid msg (enter_chat r db_access is_admin s))

  abbrev pub end_chat : Str → Reply ChatResponse × State W → Reply ChatResponse × State W
  end_chat r (reply, s) = (reply, leave_chat r s)

  -- `HandleChat`, of a chat that is alone; `r` is a name for it, and `new_id` the identifier of a session
  -- that has none.
  unfoldable pub handle_chat :
      Str → ℕ → Str → Str → Str → List Str → Bool → State W → Reply ChatResponse × State W
  unfolding enter_chat leave_chat user_turn remember_turn assistant_turn answer_chat
  handle_chat r now new_id msg session_id db_access is_admin s =
      let sid = if is_nil session_id then new_id else session_id in
      end_chat r (answer_chat sid msg (begin_chat r now sid msg db_access is_admin s))
