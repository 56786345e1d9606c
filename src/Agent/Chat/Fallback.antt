-- ===== src/Agent/Chat/Fallback.antt =====
-- internal/agent/handler.go: the tool that is called where the answer of the language model cannot be read.
use go_database.Base.{
  if◌then◌else◌, is_nil, Str, str, str_eq, lookup, ℤ, ℕ, ◌≡◌, refl, Bool, Option, none, List, [],
}
use go_database.Plugin.Types.{ok, err}
use go_database.Executor.Execute.{Manager}
use go_database.Executor.Gate.{Gate, with_scope}
use go_database.Agent.Tools.{ToolCall, Model, Output, text_of, execute_tool}
use go_database.Agent.Tools.Refused.{nl2sql-no_connection}
use go_database.Agent.Memory.{MemoryEntry}
use go_database.Agent.Text.{clean_json}
use go_database.Agent.Chat.{
  State, read_call, decide_tool, answer_chat, handle_chat, build_prompt, fallback_call,
  remember_message, enter_chat, user_turn, remember_turn,
}

module _ {W : Type 0} (mgr : Manager W) (model : Model W) (elapsed : ℤ)
    (parse : Str → Option ToolCall) (show : Output → Str) where
  decide_tool-fallback :
      (memory : Option (List MemoryEntry)) (msg answer : Str) (v w : W)
      → Model.complete model (build_prompt memory msg) v ≡ (ok answer, w)
      → parse (clean_json answer) ≡ none
      → decide_tool mgr model elapsed parse show memory msg v ≡ (ok (fallback_call msg), w)
  unfolding decide_tool read_call
  decide_tool-fallback memory msg answer v w asked unread =
      rw (decide_tool, asked, read_call, unread) refl

  fallback_no_connection :
      (msg : Str) → text_of (str "connection_id") (ToolCall.args (fallback_call msg)) ≡ []
  unfolding text_of lookup str_eq
  fallback_no_connection msg = refl

  execute_tool-fallback :
      (g : Gate) (msg : Str) (w : W)
      → execute_tool mgr model elapsed g (fallback_call msg) w
        ≡ (err (str "nl2sql needs connection_id and question"), w)
  unfolding execute_tool str_eq
  execute_tool-fallback g msg w =
      nl2sql-no_connection mgr model elapsed g (ToolCall.args (fallback_call msg)) w
        (fallback_no_connection msg)

  -- An answer of the language model that is no JSON ends in an error, whatever the question: the call of
  -- `nl2sql` that takes its place names no connection.
  handle_chat-fallback :
      (r : Str) (now : ℕ) (new_id msg session_id : Str) (db_access : List Str) (is_admin : Bool)
      (s : State W) (answer : Str) (w : W)
      → Model.complete model
          (build_prompt
            (remember_message now msg
              (if is_nil session_id then new_id else session_id)
              (State.memory s))
            msg)
          (State.world s)
        ≡ (ok answer, w)
      → parse (clean_json answer) ≡ none
      → (handle_chat mgr model elapsed parse show r now new_id msg session_id db_access is_admin
          s).0
        ≡ err (str "execute: nl2sql needs connection_id and question")
  unfolding handle_chat answer_chat enter_chat user_turn remember_turn
  handle_chat-fallback r now new_id msg session_id db_access is_admin s answer w asked unread =
      let sid = if is_nil session_id then new_id else session_id in
      let memory = remember_message now msg sid (State.memory s) in
      let decided = decide_tool-fallback memory msg answer (State.world s) w asked unread in
      let failed = execute_tool-fallback (with_scope (State.gate s) db_access is_admin) msg w in
      rw (handle_chat, answer_chat, decided, failed) refl
