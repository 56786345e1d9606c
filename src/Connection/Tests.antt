-- ===== src/Connection/Tests.antt =====
-- internal/connection/manager.go: tests of the manager, with plugins that are reachable or not and a
-- world that counts the statements that were run.
use go_database.Base.{
  if◌then◌else◌, Str, str, str_eq, lookup, pos, ℕ, ◌+◌, ◌≡◌, refl, Bool, true, false, Option, some,
  [], ◌∷◌, arith,
}
use go_database.Plugin.Types.{DbType, sqlite, Config, Result, Reply, ok, err}
use go_database.Connection.Types.{Connection, connecting, error, connected, DbPlugin}
use go_database.Connection.Manager.{ManagedConn, Conns, is_error, add, on_active}
use go_database.Connection.Manager.Laws.{IsSound}
use go_database.Connection.Health.{check_all}
use go_database.Connection.Health.Sound.{starts, steps, adds, checks, Reach-IsSound}
use go_database.Connection.Health.Final.{IsDown, check_all-IsDown}

abbrev pub no_rows : Result
no_rows = record { columns = []; rows = []; rows_affected = pos 0; duration = pos 0 }

abbrev answer : {A : Type 0} → Bool → A → Reply A
answer up a = if up then ok a else err (str "unreachable")

-- A plugin is whether its database can be reached.
abbrev pub counting : DbPlugin Bool ℕ
counting = record {
  connect = λ up cfg w. (answer up tt, w);
  ping = λ up w. (answer up tt, w);
  close = λ up w. (ok tt, w);
  query = λ up q w. (answer up no_rows, w);
  execute = λ up q w. (answer up no_rows, w + 1);
  tables = λ up w. (answer up [], w);
  schema = λ up w. (answer up (record { tables = [] }), w);
  databases = λ up w. (answer up [], w);
  create_database = λ up name w. (answer up tt, w);
  drop_database = λ up name w. (answer up tt, w);
}

abbrev pub config : Config
config = record {
  typ = sqlite;
  host = [];
  port = pos 0;
  database = [];
  user = [];
  password = [];
  file_path = str "app.db";
  ssl = false;
  params = [];
}

abbrev pub fresh : Connection
fresh = record {
  id = str "c1";
  name = str "app";
  typ = sqlite;
  source = str "manual";
  config = config;
  state = connecting;
  latency = 0;
  error_text = [];
  tags = [];
  owner_id = [];
  created_at = 1;
  updated_at = 1;
}

abbrev pub up_entry : ManagedConn Bool
up_entry = record { connection = record fresh { state = connected }; plugin = some true }

abbrev pub up_conns : Conns Bool
up_conns = (str "c1", up_entry) ∷ []

abbrev down_entry : ManagedConn Bool
down_entry = record { connection = record fresh { state = error }; plugin = some false }

abbrev down_conns : Conns Bool
down_conns = (str "c1", down_entry) ∷ []

abbrev unreachable : DbType → Option Bool
unreachable typ = some false

down-lookup : lookup (str "c1") down_conns ≡ some down_entry
unfolding lookup str_eq
down-lookup = refl

down-is_error :
    (mc : ManagedConn Bool)
    → lookup (str "c1") down_conns ≡ some mc
    → is_error mc.connection.state ≡ true
down-is_error mc e = let same : down_entry ≡ mc = ground (arith, down-lookup) in rw (← same) refl

abbrev added : Conns Bool
added = (add counting unreachable fresh 3 5 [] 0).1

Reach-IsSound_example : IsSound (check_all counting 3 9 added 7).0
Reach-IsSound_example =
    Reach-IsSound counting (steps 7 (steps 0 starts (adds unreachable fresh 3 5)) (checks 3 9))

up-lookup : lookup (str "c1") up_conns ≡ some up_entry
unfolding lookup str_eq
up-lookup = refl

check_all-IsDown_example :
    IsDown (str "c1") (check_all counting 3 9 down_conns 0).0
    × ((why : Str) × (on_active counting
            (str "c1")
            (λ up. counting.query up (str "select 1"))
            (check_all counting 3 9 down_conns 0).0
            (check_all counting 3 9 down_conns 0).1
          ≡ (err why, (check_all counting 3 9 down_conns 0).1)))
check_all-IsDown_example =
    check_all-IsDown counting (str "c1") (λ up. counting.query up (str "select 1")) 3 9 down_conns 0
      (down_entry, down-lookup, refl)
