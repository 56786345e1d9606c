-- ===== src/Executor/Tests.antt =====
-- internal/executor: tests of the executor and of the gate, over the manager of internal/connection
-- with a plugin that counts the statements that it ran.
use go_database.Base.{
  is_nil, Str, str, str_eq, has_prefix, index, to_upper, trim_space, lookup, str_eq_sound, elem,
  pos, ℕ, ◌≡◌, refl, ◌⊎◌, inl, inr, Bool, true, false, ◌||◌, some, List, [], ◌∷◌, ◌++◌, arith,
}
use go_database.Plugin.Types.{Result, Reply, ok, err}
use go_database.Connection.Manager.{Conns}
use go_database.Connection.Manager as Conn
use go_database.Connection.Tests.{counting, up_conns}
use go_database.Suggest.Types.{risk_high}
use go_database.Suggest.Risk.{classify, classify_upper}
use go_database.Guard
use go_database.Executor.Execute.{
  Manager, ExecutionRequest, execute, is_query, run_statement, execute_classified,
}
use go_database.Executor.Execute.Confirm.{execute-high}
use go_database.Executor.Gate
use go_database.Executor.Gate.{Gate, allowed, access_denied}
use go_database.Executor.Gate.Keeps.{
  IsKept, GateCall, execute_call, schema_call, gate_calls, gate_calls-keeps,
}
use go_database.Executor.Managed.{conn_manager}

abbrev World : Type 0
World = Conns Bool × ℕ

abbrev mgr : Manager World
mgr = conn_manager counting

abbrev world : World
world = (up_conns, 0)

-- No statement was run by `execute`.
abbrev Untouched : World → Type 0
Untouched w = w.1 ≡ 0

Reply-cases : {A : Type 0} (r : Reply A) → ((a : A) × (r ≡ ok a)) ⊎ ((e : Str) × (r ≡ err e))
Reply-cases (ok a) = inl (a, refl)
Reply-cases (err e) = inr (e, refl)

on_active-untouched :
    (id q : Str) (conns : Conns Bool) (w : ℕ) → w ≡ 0 → (Conn.query counting id q conns w).1 ≡ 0
unfolding Conn.query Conn.on_active
on_active-untouched id q conns w h = elim (Reply-cases (Conn.get_active id conns)) [
  | inl ((mc, up), e) ↦ rw (e, Conn.query, Conn.on_active) h
  | inr (why, e) ↦ rw (e, Conn.query, Conn.on_active) h
]

query-Untouched : (id q : Str) (v : World) → Untouched v → Untouched (mgr.query id q v).1
query-Untouched id q (conns, w) h = on_active-untouched id q conns w h

abbrev drop_request : Bool → ExecutionRequest
drop_request confirm = record {
  connection_id = str "c1";
  sql = str "drop table t";
  confirm_high = confirm;
}

drop-trimmed : is_nil (trim_space (str "drop table t")) ≡ false
unfolding trim_space
drop-trimmed = refl

drop-high : (classify (trim_space (str "drop table t"))).0 ≡ risk_high
unfolding classify classify_upper has_prefix to_upper trim_space
drop-high = refl

execute-high_example :
    ((execute mgr (pos 1) (drop_request false) world).0.success ≡ false)
    × ((execute mgr (pos 1) (drop_request false) world).0.needs_confirm ≡ true)
    × Untouched (execute mgr (pos 1) (drop_request false) world).1
execute-high_example =
    execute-high mgr Untouched (pos 1) (drop_request false) world query-Untouched drop-trimmed
      drop-high refl refl

drop-confirmed : (execute mgr (pos 1) (drop_request true) world).0.success ≡ true
unfolding execute execute_classified classify classify_upper has_prefix to_upper trim_space
    run_statement is_query Guard.trim_sql Conn.execute Conn.query Conn.on_active Conn.get_active
    lookup str_eq
drop-confirmed = refl

abbrev delete_all : Str
delete_all = str "delete from t"

delete-trimmed : trim_space delete_all ≡ delete_all
unfolding trim_space
delete-trimmed = refl

delete-counted :
    (has_prefix (to_upper delete_all) (str "DELETE")
      || has_prefix (to_upper delete_all) (str "UPDATE"))
    ≡ true
unfolding has_prefix to_upper
delete-counted = refl

delete-from : index (to_upper delete_all) (str "FROM") ≡ some 7
unfolding index has_prefix to_upper
delete-from = refl

abbrev commented : Str
commented = str "-- x\ndrop table t"

commented-trimmed : trim_space commented ≡ str "--" ++ str " x\ndrop table t"
unfolding trim_space
commented-trimmed = refl

commented-is_query : is_query mgr (trim_space commented) ≡ false
unfolding is_query Guard.trim_sql trim_space has_prefix index to_upper
commented-is_query = refl

abbrev scoped : Gate
scoped = record { db_access = str "c1" ∷ []; is_admin = false }

abbrev unscoped : Gate
unscoped = record { db_access = str "c2" ∷ []; is_admin = false }

scoped-allowed : allowed scoped (str "c1") ≡ true
unfolding allowed str_eq
scoped-allowed = refl

unscoped-elem : elem (str "c1") (str "c2" ∷ []) ≡ false
unfolding str_eq
unscoped-elem = refl

abbrev called : {A : Type 0} → A → Str → List Str → Reply A × List Str
called a id w = (ok a, id ∷ w)

abbrev no_rows : Result
no_rows = record { columns = []; rows = []; rows_affected = pos 0; duration = pos 0 }

-- A manager that keeps the connections that were called.
abbrev recorded : Manager (List Str)
recorded = record {
  list = λ w. [];
  list_visible = λ user access admin w. [];
  get_connection = λ id w. err (str "none");
  query = λ id sql w. called no_rows id w;
  execute = λ id sql w. called no_rows id w;
  tables = λ id w. called [] id w;
  schema = λ id w. called (record { tables = [] }) id w;
  databases = λ id w. called [] id w;
}

abbrev Uncalled : List Str → Type 0
Uncalled w = elem (str "c1") w ≡ false

inside_call :
    (id : Str) (v : List Str) → allowed unscoped id ≡ true → Uncalled v → Uncalled (id ∷ v)
unfolding allowed str_eq
inside_call id v inside h =
    let same : str_eq (str "c2") id ≡ true = ground (arith, inside) in
    let eq : str "c2" ≡ id = str_eq_sound (str "c2") id same in rw (← eq) h

recorded-IsKept : IsKept recorded Uncalled (allowed unscoped)
recorded-IsKept = record {
  query_kept = λ id sql. inside_call id;
  execute_kept = λ id sql. inside_call id;
  tables_kept = inside_call;
  schema_kept = inside_call;
  databases_kept = inside_call;
}

abbrev some_calls : List GateCall
some_calls =
    execute_call (str "c1") (str "drop table t")
    ∷ schema_call (str "c1")
    ∷ execute_call (str "c2") (str "delete from t")
    ∷ []

gate_calls-keeps_example : Uncalled (gate_calls recorded (pos 1) unscoped some_calls [])
gate_calls-keeps_example =
    gate_calls-keeps recorded (pos 1) unscoped Uncalled recorded-IsKept some_calls [] refl
