-- ===== src/Agent/Chat/Overlap.antt =====
-- internal/agent/handler.go: the turns of a session behind chats that overlap.
use go_database.Base.{
  leb, if◌then◌else◌, Bool-cases, Str, str_eq, ℤ, ℕ, ◌+◌, ◌-◌, ◌≤◌, ◌≡◌, refl, inl, inr, Bool, true,
  false, ◌&&◌, Option, List, [], ◌∷◌, arith,
}
use go_database.Executor.Execute.{Manager}
use go_database.Agent.Tools.{ToolCall, Model, Output}
use go_database.Agent.Chat.{
  State, handle_chat, enter_chat, leave_chat, user_turn, remember_turn, assistant_turn,
}
use go_database.Agent.Chat.Steps.{
  ChatStep, enter_step, user_step, remember_step, ask_step, embed_step, gate_step, answer_step,
  fail_step, leave_step, chat_step, run_step, run_steps,
}
use go_database.Agent.Chat.History.{
  turns_of, user_step-turns_of, turns_of-add_assistant_turn, chat_step-turns_of,
  leave_chat-turns_of,
}

-- At most `k` chats of the session are between their turns at once, `running` of them before the steps; a
-- chat ends by its answer or by an error, and none ends that did not begin.
unfoldable pub is_within : ℕ → Str → ℕ → List ChatStep → Bool
unfolding str_eq
is_within k sid running [] = true
is_within k sid running (user_step j msg ∷ cs) =
    let more = is_within k sid (running + 1) cs in
    let same = is_within k sid running cs in
    if str_eq j sid then leb (running + 1) k && more else same
is_within k sid running (answer_step j summary ∷ cs) =
    let less = is_within k sid (running - 1) cs in
    let same = is_within k sid running cs in if str_eq j sid then leb 1 running && less else same
is_within k sid running (fail_step j ∷ cs) =
    let less = is_within k sid (running - 1) cs in
    let same = is_within k sid running cs in if str_eq j sid then leb 1 running && less else same
is_within k sid running (chat_step r now j msg db_access is_admin ∷ cs) =
    let same = is_within k sid running cs in
    if str_eq j sid then leb (running + 1) k && same else same
is_within k sid running (enter_step _ _ _ ∷ cs) = is_within k sid running cs
is_within k sid running (remember_step _ _ _ ∷ cs) = is_within k sid running cs
is_within k sid running (ask_step _ ∷ cs) = is_within k sid running cs
is_within k sid running (embed_step _ ∷ cs) = is_within k sid running cs
is_within k sid running (gate_step _ ∷ cs) = is_within k sid running cs
is_within k sid running (leave_step _ ∷ cs) = is_within k sid running cs

both_true : (a b : Bool) → (a && b) ≡ true → (a ≡ true) × (b ≡ true)
both_true true true h = (refl, refl)
both_true true false h = (refl, h)
both_true false b h = (h, cc)

leb_sound : (a b : ℕ) → leb a b ≡ true → a ≤ b
leb_sound a b h = ground (arith, h)

module _ {W : Type 0} (mgr : Manager W) (model : Model W) (elapsed : ℤ)
    (parse : Str → Option ToolCall) (show : Output → Str) (k : ℕ) (sid : Str) where
  -- What is kept: a turn can still come for each chat that is between its turns.
  abbrev HasRoom : ℕ → State W → Type 0
  HasRoom running s = (turns_of sid (State.sessions s) + running ≤ 20 + k) × (running ≤ k)

  steps_with_room :
      (cs : List ChatStep) (running : ℕ) (s : State W)
      → is_within k sid running cs ≡ true
      → HasRoom running s
      → turns_of sid (State.sessions (run_steps mgr model elapsed parse show cs s)) ≤ 20 + k
  unfolding run_steps run_step is_within enter_chat user_turn remember_turn assistant_turn
  steps_with_room [] running s within (room, few) = omega arith
  steps_with_room (user_step j msg ∷ cs) running s within (room, few) =
      let now = user_step-turns_of sid j msg (State.sessions s) in
      elim (Bool-cases (str_eq j sid)) [
        | inl same ↦
            let short : turns_of sid (State.sessions (user_turn j msg s)) ≤ 20 = rw same at now in
            let (one_more, rest) =
              both_true (leb (running + 1) k) (is_within k sid (running + 1) cs)
                (rw same at within) in
            let fits = leb_sound (running + 1) k one_more in
            steps_with_room cs (running + 1) (user_turn j msg s) rest (omega arith, fits)
        | inr other ↦
            let short : turns_of sid (State.sessions (user_turn j msg s))
                ≤ turns_of sid (State.sessions s) =
              rw other at now in
            steps_with_room cs running (user_turn j msg s) (rw other at within) (omega arith, few)
      ]
  steps_with_room (answer_step j summary ∷ cs) running s within (room, few) =
      let now = turns_of-add_assistant_turn j sid summary (State.sessions s) in
      elim (Bool-cases (str_eq j sid)) [
        | inl same ↦
            let longer : turns_of sid (State.sessions (assistant_turn j summary s))
                ≡ turns_of sid (State.sessions s) + 1 =
              rw same at now in
            let (one, rest) =
              both_true (leb 1 running) (is_within k sid (running - 1) cs) (rw same at within) in
            let runs = leb_sound 1 running one in
            steps_with_room cs (running - 1) (assistant_turn j summary s) rest
              (omega arith, omega arith)
        | inr other ↦
            let equal : turns_of sid (State.sessions (assistant_turn j summary s))
                ≡ turns_of sid (State.sessions s) =
              rw other at now in
            steps_with_room cs running (assistant_turn j summary s) (rw other at within)
              (omega arith, few)
      ]
  steps_with_room (fail_step j ∷ cs) running s within (room, few) =
      elim (Bool-cases (str_eq j sid)) [
        | inl same ↦
            let (one, rest) =
              both_true (leb 1 running) (is_within k sid (running - 1) cs) (rw same at within) in
            steps_with_room cs (running - 1) s rest (omega arith, omega arith)
        | inr other ↦ steps_with_room cs running s (rw other at within) (room, few)
      ]
  steps_with_room (chat_step r t j msg db_access is_admin ∷ cs) running s within (room, few) =
      let now =
        chat_step-turns_of mgr model elapsed parse show sid r t j msg db_access is_admin s in
      elim (Bool-cases (str_eq j sid)) [
        | inl same ↦
            let short = rw same at now in
            let (one_more, rest) =
              both_true (leb (running + 1) k) (is_within k sid running cs) (rw same at within) in
            let fits = leb_sound (running + 1) k one_more in
            steps_with_room cs running
              (handle_chat mgr model elapsed parse show r t j msg j db_access is_admin s).1 rest
              (omega arith, few)
        | inr other ↦
            let short = rw other at now in
            steps_with_room cs running
              (handle_chat mgr model elapsed parse show r t j msg j db_access is_admin s).1
              (rw other at within) (omega arith, few)
      ]
  steps_with_room (leave_step r ∷ cs) running s within (room, few) =
      let equal = leave_chat-turns_of mgr model elapsed parse show r sid s in
      steps_with_room cs running (leave_chat r s) within (omega arith, few)
  steps_with_room (enter_step _ _ _ ∷ cs) running s within room =
      steps_with_room cs running _ within room
  steps_with_room (remember_step _ _ _ ∷ cs) running s within room =
      steps_with_room cs running _ within room
  steps_with_room (ask_step _ ∷ cs) running s within room = steps_with_room cs running _ within room
  steps_with_room (embed_step _ ∷ cs) running s within room =
      steps_with_room cs running _ within room
  steps_with_room (gate_step _ ∷ cs) running s within room =
      steps_with_room cs running _ within room

  -- However chats overlap: a session grows to 20 turns and one for each of the `k` chats that are at most
  -- between their two turns in it at once, so to 21, one more than `maxHistory`, where the chats of a
  -- session do not overlap. Here no such chat runs before the steps, and the session is within the bound.
  pub run_steps-turns_of :
      (cs : List ChatStep) (s : State W)
      → turns_of sid (State.sessions s) ≤ 20 + k
      → is_within k sid 0 cs ≡ true
      → turns_of sid (State.sessions (run_steps mgr model elapsed parse show cs s)) ≤ 20 + k
  run_steps-turns_of cs s short within = steps_with_room cs 0 s within (omega arith, omega arith)
