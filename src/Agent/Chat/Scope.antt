-- ===== src/Agent/Chat/Scope.antt =====
-- internal/agent/handler.go: the databases behind chats, and the gates that the chats act through.
use go_database.Base.{Str, lookup, ◌≡◌, Bool, true, some, List, [], ◌∷◌}
use go_database.Executor.Gate.{Gate, allowed}
use go_database.Agent.Chat.{State}
use go_database.Agent.Chat.Steps.{
  ChatStep, enter_step, user_step, remember_step, ask_step, embed_step, gate_step, answer_step,
  fail_step, leave_step, chat_step,
}

-- The gate allows only connections that can be reached.
abbrev pub IsInside : (Str → Bool) → Gate → Type 0
IsInside reach g = (id : Str) → allowed g id ≡ true → reach id ≡ true

abbrev scope_of : List Str → Bool → Gate
scope_of db_access is_admin = record { db_access = db_access; is_admin = is_admin }

-- The scopes of the chats that begin among the steps allow only connections that can be reached.
unfoldable pub AreInside : (Str → Bool) → List ChatStep → Type 0
AreInside reach [] = Unit
AreInside reach (enter_step r db_access is_admin ∷ cs) =
    IsInside reach (scope_of db_access is_admin) × AreInside reach cs
AreInside reach (chat_step r now sid msg db_access is_admin ∷ cs) =
    IsInside reach (scope_of db_access is_admin) × AreInside reach cs
AreInside reach (user_step _ _ ∷ cs) = AreInside reach cs
AreInside reach (remember_step _ _ _ ∷ cs) = AreInside reach cs
AreInside reach (ask_step _ ∷ cs) = AreInside reach cs
AreInside reach (embed_step _ ∷ cs) = AreInside reach cs
AreInside reach (gate_step _ ∷ cs) = AreInside reach cs
AreInside reach (answer_step _ _ ∷ cs) = AreInside reach cs
AreInside reach (fail_step _ ∷ cs) = AreInside reach cs
AreInside reach (leave_step _ ∷ cs) = AreInside reach cs

-- The databases are as they should be, and so are the gate and those that running chats will put back.
pub record IsSafe {W : Type 0} (P : W → Type 0) (reach : Str → Bool) (s : State W) : Type 0 where
  pub world_kept : P (State.world s)
  pub gate_inside : IsInside reach (State.gate s)
  pub held_inside : (r : Str) (g : Gate) → lookup r (State.held s) ≡ some g → IsInside reach g
