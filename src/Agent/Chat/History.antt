-- ===== src/Agent/Chat/History.antt =====
-- internal/agent/handler.go: the turns of a session behind the steps of a chat, and behind a whole chat.
use go_database.Base.{
  leb, if◌then◌else◌, Bool-cases, Option-cases, length, is_nil, length-append, length-drop, Str,
  str, str_eq, lookup, str_eq_sound, lookup-insert_self, lookup-insert_ne, ℤ, ℕ, ◌+◌, ◌-◌, ◌≤◌, ◌≡◌,
  refl, ap, ◌∙◌, inl, inr, Bool, true, false, Option, List, [], ◌∷◌, ◌++◌, arith,
}
use go_database.Plugin.Types.{Reply, ok, err}
use go_database.Executor.Execute.{Manager}
use go_database.Agent.Tools.{ToolCall, Model, Output, execute_tool}
use go_database.Agent.Chat.{
  Turn, Sessions, State, cut_history, history_of, add_user_turn, add_assistant_turn, decide_tool,
  after_tool, after_decision, answer_chat, begin_chat, handle_chat, summary_of, enter_chat,
  leave_chat, user_turn, remember_turn, assistant_turn,
}

-- The number of turns of a session.
abbrev pub turns_of : Str → Sessions → ℕ
turns_of sid ss = length (history_of (lookup sid ss))

length-cut_history : (turns : List Turn) → length (cut_history turns) ≤ 19
unfolding cut_history
length-cut_history turns = elim (Bool-cases (leb 20 (length turns))) [
  | inl full ↦ rw (cut_history, full, length-drop (length turns - 10) turns) (omega arith)
  | inr room ↦ rw (cut_history, room) (ground (arith, room))
]

-- The history of the user's session behind their turn.
user_turns :
    (sid msg : Str) (ss : Sessions)
    → length (history_of (lookup sid (add_user_turn sid msg ss))) ≤ 20
unfolding add_user_turn
user_turns sid msg ss =
    let turn : Turn = record { role = str "user"; content = msg } in
    let cut = cut_history (history_of (lookup sid ss)) in
    let short = length-cut_history (history_of (lookup sid ss)) in
    let grown = length-append cut (turn ∷ []) in
    rw (lookup-insert_self sid (cut ++ turn ∷ []) ss) (omega arith)

turns_of-add_user_turn :
    (j sid msg : Str) (ss : Sessions)
    → str_eq j sid ≡ false
    → turns_of sid (add_user_turn j msg ss) ≡ turns_of sid ss
unfolding add_user_turn
turns_of-add_user_turn j sid msg ss other =
    ap (λ h. length (history_of h)) (lookup-insert_ne j sid _ ss other)

pub turns_of-add_assistant_turn :
    (j sid summary : Str) (ss : Sessions)
    → turns_of sid (add_assistant_turn j summary ss)
      ≡ (if str_eq j sid then turns_of sid ss + 1 else turns_of sid ss)
unfolding add_assistant_turn
turns_of-add_assistant_turn j sid summary ss =
    let turn : Turn = record { role = str "assistant"; content = summary } in
    elim (Bool-cases (str_eq j sid)) [
      | inr other ↦ rw other (ap (λ h. length (history_of h)) (lookup-insert_ne j sid _ ss other))
      | inl same ↦
          let eq : j ≡ sid = str_eq_sound j sid same in
          let longer = length-append (history_of (lookup sid ss)) (turn ∷ []) in
          rw same (
            rw eq (
              ap (λ h. length (history_of h))
                (lookup-insert_self sid (history_of (lookup sid ss) ++ turn ∷ []) ss)
              ∙ longer))
    ]

pub user_step-turns_of :
    (sid j msg : Str) (ss : Sessions)
    → turns_of sid (add_user_turn j msg ss) ≤ (if str_eq j sid then 20 else turns_of sid ss)
user_step-turns_of sid j msg ss = elim (Bool-cases (str_eq j sid)) [
  | inl same ↦ let eq : j ≡ sid = str_eq_sound j sid same in rw same (rw eq (user_turns sid msg ss))
  | inr other ↦ let before = turns_of-add_user_turn j sid msg ss other in rw other (omega arith)
]

module _ {W : Type 0} (mgr : Manager W) (model : Model W) (elapsed : ℤ)
    (parse : Str → Option ToolCall) (show : Output → Str) where
  pub leave_chat-turns_of :
      (r sid : Str) (s : State W)
      → turns_of sid (State.sessions (leave_chat r s)) ≡ turns_of sid (State.sessions s)
  unfolding leave_chat
  leave_chat-turns_of r sid s = elim (Option-cases (lookup r (State.held s))) [
    | inl absent ↦ rw (leave_chat, absent) refl
    | inr (old, there) ↦ rw (leave_chat, there) refl
  ]

  -- A chat adds one turn of the assistant at most behind that of the user.
  after_tool-turns_of :
      (j sid : Str) (call : ToolCall) (s : State W) (r : Reply Output × W)
      → turns_of sid (State.sessions (after_tool mgr model elapsed parse show j call s r).1) ≤ (
          if str_eq j sid
          then turns_of sid (State.sessions s) + 1
          else turns_of sid (State.sessions s))
  unfolding assistant_turn
  after_tool-turns_of j sid call s (err e, w) = elim (Bool-cases (str_eq j sid)) [
    | inl same ↦ rw same (omega arith)
    | inr other ↦ rw other (omega arith)
  ]
  after_tool-turns_of j sid call s (ok result, w) =
      rw
        (turns_of-add_assistant_turn j sid (summary_of mgr model elapsed parse show call result)
          (State.sessions s))
        (omega arith)

  after_decision-turns_of :
      (j sid : Str) (s : State W) (r : Reply ToolCall × W)
      → turns_of sid (State.sessions (after_decision mgr model elapsed parse show j s r).1) ≤ (
          if str_eq j sid
          then turns_of sid (State.sessions s) + 1
          else turns_of sid (State.sessions s))
  after_decision-turns_of j sid s (err e, w) = elim (Bool-cases (str_eq j sid)) [
    | inl same ↦ rw same (omega arith)
    | inr other ↦ rw other (omega arith)
  ]
  after_decision-turns_of j sid s (ok call, w) =
      after_tool-turns_of j sid call s (execute_tool mgr model elapsed (State.gate s) call w)

  chat_id : (b : Bool) (j : Str) → (if b then j else j) ≡ j
  chat_id true j = refl
  chat_id false j = refl

  handle_chat-turns_of :
      (r : Str) (now : ℕ) (j sid msg : Str) (db_access : List Str) (is_admin : Bool) (s : State W)
      → turns_of sid (
          State.sessions
            (handle_chat mgr model elapsed parse show r now j msg j db_access is_admin s).1)
        ≤ (if str_eq j sid
            then turns_of sid (add_user_turn j msg (State.sessions s)) + 1
            else turns_of sid (add_user_turn j msg (State.sessions s)))
  unfolding handle_chat answer_chat enter_chat user_turn remember_turn
  handle_chat-turns_of r now j sid msg db_access is_admin s =
      let begun = begin_chat mgr model elapsed parse show r now j msg db_access is_admin s in
      let decision =
        decide_tool mgr model elapsed parse show (State.memory begun) msg (State.world begun) in
      rw (handle_chat, chat_id (is_nil j) j)
        (rw
          (leave_chat-turns_of r sid
            (after_decision mgr model elapsed parse show j begun decision).1)
          (after_decision-turns_of j sid begun decision))

  pub chat_step-turns_of :
      (sid r : Str) (now : ℕ) (j msg : Str) (db_access : List Str) (is_admin : Bool) (s : State W)
      → turns_of sid (
          State.sessions
            (handle_chat mgr model elapsed parse show r now j msg j db_access is_admin s).1)
        ≤ (if str_eq j sid then 21 else turns_of sid (State.sessions s))
  chat_step-turns_of sid r now j msg db_access is_admin s = elim (Bool-cases (str_eq j sid)) [
    | inl same ↦
        let eq : j ≡ sid = str_eq_sound j sid same in
        let user : turns_of sid (add_user_turn j msg (State.sessions s)) ≤ 20 =
          rw eq (user_turns sid msg (State.sessions s)) in
        let both = rw same at (handle_chat-turns_of r now j sid msg db_access is_admin s) in
        rw same (omega arith)
    | inr other ↦
        let both = rw other at (handle_chat-turns_of r now j sid msg db_access is_admin s) in
        let before = turns_of-add_user_turn j sid msg (State.sessions s) other in
        rw other (omega arith)
  ]
