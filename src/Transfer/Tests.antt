-- ===== src/Transfer/Tests.antt =====
-- internal/transfer: tests of the literals, and of a table of two rows that is copied row by row.
use go_database.Base.{
  if◌then◌else◌, length, take, drop, Str, str, str_eq, has_prefix, show_nat, lookup, insert, pos, ℕ,
  zero, suc, ◌≤◌, ◌≡◌, refl, true, false, none, some, List, [], ◌∷◌, ◌++◌, arith,
}
use go_database.Plugin.Types.{sqlite, Value, text, Result, Reply, ok, err, TableInfo}
use go_database.Transfer.Sql.{escape_value}
use go_database.Transfer.Sql.Literal.{read_literal, read_literal-escape_value}
use go_database.Transfer.Engine.{Databases, Job, page_query, transfer_table}
use go_database.Transfer.Jobs.{
  TransferJob, status, cancel, new_job_engine, start_job, end_run, state_at, change_at,
}
use go_database.Transfer.Jobs.Held.{
  JobCall, start_call, begin_step, end_step, apply_call, after_calls, status-cancel,
}
use go_database.Transfer.Engine.Pages.{concat, AreSmall, write_all, transfer_table-copies}

comma_follows : has_prefix (str ",1);") (str "'") ≡ false
unfolding has_prefix
comma_follows = refl

read_literal-escape_value_example :
    read_literal (escape_value (text (str "it's")) ++ str ",1);") ≡ some (str "it's", str ",1);")
read_literal-escape_value_example =
    read_literal-escape_value (str "it's") (str ",1);") comma_follows

abbrev rows : List (List Value)
rows = (text (str "a") ∷ []) ∷ (text (str "b") ∷ []) ∷ []

abbrev page : ℕ → Result
page offset = record {
  columns = str "name" ∷ [];
  rows = take 1 (drop offset rows);
  rows_affected = pos 0;
  duration = pos 0;
}

-- A source with one table, and a target that keeps the statements that it was sent.
abbrev logged : Databases (List Str)
logged = record {
  schema = λ id w. (ok (record { tables = [] }), w);
  query = λ id q w. (
    ok (
        if str_eq q (page_query (str "t") 0 1)
        then page 0
        else if str_eq q (page_query (str "t") 1 1)
        then page 1
        else page 2),
    w,
  );
  execute = λ id q w. (ok (page 2), w ++ q ∷ []);
  is_done = λ w. false;
}

abbrev job : Job
job = record {
  source_conn = str "c1";
  target_conn = str "c2";
  target_type = sqlite;
  tables = [];
  batch_size = 1;
  on_conflict = str "append";
  dry_run = false;
}

abbrev one_table : TableInfo
one_table = record { name = str "t"; row_count = pos 2; columns = [] }

abbrev print : Value → Str
print v = escape_value v

serves :
    (offset : ℕ) (w : List Str)
    → offset ≤ length rows
    → logged.query (str "c1") (page_query (str "t") offset 1) w ≡ (ok (page offset), w)
unfolding str_eq show_nat
serves zero w h = refl
serves (suc zero) w h = refl
serves (suc (suc zero)) w h = refl
serves (suc (suc (suc offset))) w h = grind arith

transfer_table-copies_example :
    (batches : List (List (List Value))) × (concat batches ≡ rows)
    × AreSmall 1 batches
    × (transfer_table logged print job one_table 3 []
        ≡ some (
          record { total = 2; failure = none },
          write_all logged print job one_table (str "name" ∷ []) batches [],
        ))
transfer_table-copies_example =
    transfer_table-copies logged print job one_table (str "name" ∷ []) rows page (omega arith)
      (λ offset. refl) (λ offset. refl) (λ w. refl) serves (λ q w. (page 2, refl)) 3 []
      (omega arith)

abbrev dry_job : Job
dry_job = record job { dry_run = true }

abbrev copy_job : Str → TransferJob
copy_job id = record {
  id = id;
  source_type = str "sqlite";
  job = job;
  created_at = 0;
  status = [];
  log = [];
}

-- The second job takes the place of the first in the map, while the first goes on.
abbrev two_started : List JobCall
two_started =
    end_step 0 []
    ∷ start_call 7 (copy_job (str "b"))
    ∷ begin_step 1
    ∷ start_call 6 (copy_job (str "a"))
    ∷ begin_step 0
    ∷ start_call 5 (copy_job (str "a"))
    ∷ []

a_is_not_b : str_eq (str "a") (str "b") ≡ false
unfolding str_eq
a_is_not_b = refl

status-cancel_example :
    status (str "b") (cancel (str "a") (after_calls two_started)).1
    ≡ status (str "b") (after_calls two_started)
status-cancel_example = status-cancel two_started (str "a") (str "b") a_is_not_b

abbrev status_of : Reply TransferJob → Str
status_of (ok job) = TransferJob.status job
status_of (err e) = e

-- A job that is done is marked cancelled.
cancelled_behind_its_end :
    status_of (
      status
        (str "a")
        (cancel (str "a") (after_calls (end_step 0 [] ∷ start_call 5 (copy_job (str "a")) ∷ []))).1)
    ≡ str "cancelled"
unfolding status cancel after_calls apply_call start_job end_run new_job_engine lookup insert str_eq
    state_at change_at
cancelled_behind_its_end = refl
