-- ===== src/Agent/Chat/Steps.antt =====
-- internal/agent/handler.go: chats that overlap, as the sequence of the steps that they take. The lock, the
-- gate and each call of a client lie between two steps: a tool asks the agent for its gate anew at each
-- call that it makes.
use go_database.Base.{Str, ℤ, ℕ, Bool, Option, List, [], ◌∷◌}
use go_database.Executor.Execute.{Manager}
use go_database.Executor.Gate.Keeps.{GateCall, gate_call}
use go_database.Agent.Tools.{ToolCall, Model, Output}
use go_database.Agent.Chat.{
  State, enter_chat, leave_chat, user_turn, remember_turn, assistant_turn, handle_chat,
}

-- A step of a chat; `ask_step` and `embed_step` are the calls of the language model and the embedder,
-- `gate_step` a call that a tool makes, `fail_step` the return with an error, and `chat_step` a chat that no
-- other step interrupts.
pub data ChatStep : Type 0 where
  enter_step : Str → List Str → Bool → ChatStep
  user_step : Str → Str → ChatStep
  remember_step : ℕ → Str → Str → ChatStep
  ask_step : Str → ChatStep
  embed_step : Str → ChatStep
  gate_step : GateCall → ChatStep
  answer_step : Str → Str → ChatStep
  fail_step : Str → ChatStep
  leave_step : Str → ChatStep
  chat_step : Str → ℕ → Str → Str → List Str → Bool → ChatStep

module _ {W : Type 0} (mgr : Manager W) (model : Model W) (elapsed : ℤ)
    (parse : Str → Option ToolCall) (show : Output → Str) where
  unfoldable pub run_step : ChatStep → State W → State W
  unfolding enter_chat leave_chat user_turn remember_turn assistant_turn handle_chat gate_call
  run_step (enter_step r db_access is_admin) s = enter_chat r db_access is_admin s
  run_step (user_step sid msg) s = user_turn sid msg s
  run_step (remember_step now msg sid) s = remember_turn now msg sid s
  run_step (ask_step prompt) s = record s {
    world = (Model.complete model prompt (State.world s)).1;
  }
  run_step (embed_step text) s = record s { world = (Model.embed model text (State.world s)).1 }
  run_step (gate_step call) s = record s {
    world = gate_call mgr elapsed (State.gate s) call (State.world s);
  }
  run_step (answer_step sid summary) s = assistant_turn sid summary s
  run_step (fail_step sid) s = s
  run_step (leave_step r) s = leave_chat r s
  run_step (chat_step r now sid msg db_access is_admin) s =
      (handle_chat mgr model elapsed parse show r now sid msg sid db_access is_admin s).1

  -- The agent behind some steps, the first one first.
  unfoldable pub run_steps : List ChatStep → State W → State W
  unfolding run_step
  run_steps [] s = s
  run_steps (c ∷ cs) s = run_steps cs (run_step c s)
