-- ===== src/Tables/Commands.antt =====
-- The methods of MetadataStoreProtocol, in persistence/base.py, as commands with the clock readings that they
-- make, what persistence/in_memory_store.py answers, and what a store on tables has to answer.
use skeino.Base.{
  ℕ, ◌≡◌, String, Bool, true, false, Option, none, some, List, Dict, contains, Unique,
}
use mathlib.Core.List.{Perm}
use skeino.Json.{Fields}
use skeino.Schemas.{
  RunStatus, MultitaskStrategy, ThreadIfExists, ThreadTtlConfig, ThreadRow, RunRow,
}
use skeino.Store.{Store, Result, ThreadUpdate}
use skeino.Store as Memory
use skeino.Tables.{Database, assigns}
use skeino.Tables.Keyed.{keyed}

pub data Command : Type 0 where
  create_thread : ℕ → ℕ → Fields → Fields → Option ThreadTtlConfig → ThreadIfExists → Command
  update_thread : ℕ → ℕ → ℕ → ThreadUpdate → Command
  fetch_thread_row : ℕ → Command
  delete_thread : ℕ → Command
  create_run : ℕ → ℕ → ℕ → String → Fields → Fields → MultitaskStrategy → Command
  update_run_status : ℕ → ℕ → RunStatus → Option String → Command
  fetch_run_row : ℕ → ℕ → Command
  delete_run : ℕ → ℕ → Command
  touch_runs : ℕ → List ℕ → Command
  fail_stale_runs : ℕ → ℕ → List ℕ → String → Command

pub data Reply : Type 0 where
  done refused : Reply
  thread_result : Result ThreadRow → Reply
  thread_row : Option ThreadRow → Reply
  run_row : Option RunRow → Reply
  updated : Bool → Reply
  failed_rows : List RunRow → Reply

-- InMemoryMetadataStore
unfoldable pub answer_memory : Command → Store → Reply × Store
answer_memory (create_thread now k metadata config ttl if_exists) s =
    let (r, s') = Memory.create_thread now s k metadata config ttl if_exists in
    (thread_result r, s')
answer_memory (update_thread now now' k u) s = (done, Memory.update_thread now now' s k u)
answer_memory (fetch_thread_row k) s = (thread_row (Memory.fetch_thread_row s k), s)
answer_memory (delete_thread k) s = (done, Memory.delete_thread s k)
answer_memory (create_run now k t assistant_id metadata kwargs strategy) s =
    let (row, s') = Memory.create_run now s k t assistant_id metadata kwargs strategy in
    (run_row (some row), s')
answer_memory (update_run_status now k status error) s =
    let (b, s') = Memory.update_run_status now s k status error in (updated b, s')
answer_memory (fetch_run_row t k) s = (run_row (Memory.fetch_run_row s t k), s)
answer_memory (delete_run t k) s = (done, Memory.delete_run s t k)
answer_memory (touch_runs now ks) s = (done, Memory.touch_runs now s ks)
answer_memory (fail_stale_runs now stale_after excluded error) s =
    let (rows, s') = Memory.fail_stale_runs now s stale_after excluded error in
    (failed_rows rows, s')

-- An IntegrityError of `create_run` reaches the caller.
unfoldable pub inserted : Database → Option (RunRow × Database) → Reply × Database
inserted db none = (refused, db)
inserted db (some (row, db')) = (run_row (some row), db')

unfoldable pub swept : Option (List RunRow) × Database → Reply × Database
swept (none, db) = (refused, db)
swept (some rows, db) = (failed_rows rows, db)

-- The store that a database stands for.
abbrev pub thread_key : ThreadRow → ℕ
thread_key row = row.thread_id

abbrev pub run_key : RunRow → ℕ
run_key row = row.run_id

abbrev pub contents : Database → Store
contents db = record { threads = keyed thread_key db.app_threads; runs = keyed run_key db.app_runs }

-- The primary keys hold.
pub record IsKeyed (db : Database) : Type 0 where
  pub threads : Unique (keyed thread_key db.app_threads)
  pub runs : Unique (keyed run_key db.app_runs)

-- What the callers keep to: an update writes some field, and a run is created under a fresh id on a
-- thread that exists.
abbrev pub IsAdmissible : Command → Database → Type 0
IsAdmissible (update_thread now now' k u) db = assigns u ≡ true
IsAdmissible (create_run now k t assistant_id metadata kwargs strategy) db =
    (contains (keyed run_key db.app_runs) k ≡ false)
    × (contains (keyed thread_key db.app_threads) t ≡ true)
IsAdmissible command db = Unit

-- A store on tables.
abbrev pub Backend : Type 0
Backend = Command → Database → Reply × Database

-- The order of the rows that a sweep failed is the engine's.
abbrev pub SameReply : Reply → Reply → Type 0
SameReply (failed_rows rows) (failed_rows rows') = Perm rows rows'
SameReply reply reply' = reply ≡ reply'

-- A command is answered as the in-memory store answers it on the contents of the database, and the database
-- stands for the same store afterwards.
abbrev pub Simulates : Backend → Command → Database → Type 0
Simulates backend command db =
    SameReply (backend command db).0 (answer_memory command (contents db)).0
    × (contents (backend command db).1 ≡ (answer_memory command (contents db)).1)

-- A store of given tables.
abbrev pub with_threads : Database → Dict ThreadRow → Store
with_threads db threads = record { threads = threads; runs = keyed run_key db.app_runs }

abbrev pub with_runs : Database → Dict RunRow → Store
with_runs db runs = record { threads = keyed thread_key db.app_threads; runs = runs }
