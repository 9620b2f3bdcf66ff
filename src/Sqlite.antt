-- ===== src/Sqlite.antt =====
-- persistence/sqlite_store.py: SqliteMetadataStore. A column of text that the store writes by `isoformat`,
-- `json.dumps` or `str` of a UUID and reads back by the inverse is kept as the value, and these texts order
-- as the values do.
pub mod Claims
pub mod Orders
pub mod Answers
pub mod Simulation
pub mod Refinement
pub mod Listing
pub mod Heartbeats
use skeino.Tables.{
  Database, Sorts, IsOrderBy, fetchone, update_where, rowcount, delete_where, of_thread, on_thread,
  of_run, in_flight_run, is_given, assigns,
}
use skeino.Base.{
  ℕ, ◌+◌, ◌-◌, ◌≡◌, String, Bool, true, false, not, ◌&&◌, ◌||◌, Option, none, some, List, [], ◌∷◌,
  ◌++◌, ◌==◌, ltb, leb, if◌then◌else◌, take, drop, keep, elem, is_empty, length, IsSorted,
}
use mathlib.Core.List.{Perm}
use skeino.Json.{Fields}
use skeino.Schemas.{
  ThreadStatus, RunStatus, MultitaskStrategy, ThreadIfExists, ThreadTtlConfig, ThreadRow, RunRow,
  ThreadSearchRequest, in_flight,
}
use skeino.Errors.{HttpError}
use skeino.Store.{
  Result, ok, err, ThreadUpdate, new_thread_row, new_run_row, ttl_payload, updated_row, id_allowed,
  status_allowed, resolve_sort_by, sort_key, run_status_allowed, failed_row,
}

unfoldable pub fetch_thread_row : Database → ℕ → Option ThreadRow
fetch_thread_row db thread_id = fetchone (keep (of_thread thread_id) db.app_threads)

-- INSERT INTO app_threads; none: IntegrityError, the id is taken
unfoldable pub insert_thread : Database → ThreadRow → Option Database
insert_thread db row =
    if is_empty (keep (of_thread row.thread_id) db.app_threads)
    then some (record db { app_threads = db.app_threads ++ row ∷ [] })
    else none

-- The `except` clause: `existing` is the row that is read again.
unfoldable pub after_conflict : ℕ → ThreadIfExists → Option ThreadRow → Result ThreadRow
after_conflict thread_id ThreadIfExists.do_nothing (some existing) = ok existing
after_conflict thread_id ThreadIfExists.do_nothing none = err (HttpError.thread_reread thread_id)
after_conflict thread_id ThreadIfExists.raise existing = err (HttpError.thread_exists thread_id)

-- `meanwhile` is what another process does to the file after a refused insertion.
unfoldable pub create_thread :
    ℕ
    → (Database → Database)
    → Database
    → ℕ
    → Fields
    → Fields
    → Option ThreadTtlConfig
    → ThreadIfExists
    → Result ThreadRow × Database
unfolding new_thread_row ttl_payload insert_thread after_conflict fetch_thread_row
create_thread now meanwhile db thread_id metadata config ttl if_exists =
    let row = new_thread_row thread_id now metadata config (ttl_payload ttl now) in
    elim (insert_thread db row) [
      | some db' ↦ (ok row, db')
      | none ↦ (
        after_conflict thread_id if_exists (fetch_thread_row (meanwhile db) thread_id),
        meanwhile db,
      )
    ]

-- `now` and `now'` are the two readings of the clock.
unfoldable pub update_thread : ℕ → ℕ → Database → ℕ → ThreadUpdate → Database
unfolding updated_row
update_thread now now' db thread_id u =
    if assigns u
    then record db {
      app_threads = update_where (of_thread thread_id) (updated_row now now' u) db.app_threads;
    }
    else db

unfoldable pub search_thread_rows : Sorts → Database → ThreadSearchRequest → List ThreadRow
unfolding id_allowed status_allowed resolve_sort_by sort_key
search_thread_rows sorts db request =
    let found =
      keep (λ r. id_allowed request.ids r && status_allowed request.status r) db.app_threads in
    let sorted =
      sorts.order_threads (sort_key (resolve_sort_by request)) (not request.ascending) found in
    take request.limit (drop request.offset sorted)

unfoldable pub delete_thread : Database → ℕ → Database
delete_thread db thread_id = record {
  app_runs = delete_where (on_thread thread_id) db.app_runs;
  app_threads = delete_where (of_thread thread_id) db.app_threads;
}

-- none: IntegrityError, from the primary key or from the thread's foreign key
unfoldable pub create_run :
    ℕ → Database → ℕ → ℕ → String → Fields → Fields → MultitaskStrategy → Option (RunRow × Database)
unfolding new_run_row
create_run now db run_id thread_id assistant_id metadata kwargs multitask_strategy =
    let row = new_run_row run_id thread_id now assistant_id metadata kwargs multitask_strategy in
    if is_empty (keep (λ r. r.run_id == run_id) db.app_runs)
      && not (is_empty (keep (of_thread thread_id) db.app_threads))
    then some (row, record db { app_runs = db.app_runs ++ row ∷ [] })
    else none

unfoldable pub update_run_status : ℕ → Database → ℕ → RunStatus → Option String → Bool × Database
update_run_status now db run_id status_value error = (
  ltb 0 (rowcount (in_flight_run run_id) db.app_runs),
  record db {
    app_runs =
        update_where (in_flight_run run_id)
          (λ row. record row { status = status_value; updated_at = now; error = error })
          db.app_runs;
  },
)

unfoldable pub fetch_run_row : Database → ℕ → ℕ → Option RunRow
fetch_run_row db thread_id run_id = fetchone (keep (of_run thread_id run_id) db.app_runs)

unfoldable pub list_run_rows : Sorts → Database → ℕ → ℕ → ℕ → Option RunStatus → List RunRow
unfolding run_status_allowed
list_run_rows sorts db thread_id limit offset status_value =
    let found =
      keep (λ r. on_thread thread_id r && run_status_allowed status_value r) db.app_runs in
    take limit (drop offset (sorts.order_runs (λ r. r.created_at) true found))

unfoldable pub delete_run : Database → ℕ → ℕ → Database
delete_run db thread_id run_id = record db {
  app_runs = delete_where (of_run thread_id run_id) db.app_runs;
}

-- executemany
unfoldable pub touch_each : ℕ → List RunRow → List ℕ → List RunRow
touch_each now runs [] = runs
touch_each now runs (run_id ∷ run_ids) =
    touch_each now
      (update_where (in_flight_run run_id) (λ row. record row { updated_at = now }) runs) run_ids

unfoldable pub touch_runs : ℕ → Database → List ℕ → Database
unfolding touch_each
touch_runs now db run_ids =
    if is_empty run_ids then db else record db { app_runs = touch_each now db.app_runs run_ids }

-- The claim's WHERE clause: the run is as it was read, and still in flight.
abbrev pub unclaimed : RunRow → RunRow → Bool
unclaimed read row =
    row.run_id == read.run_id && (row.updated_at == read.updated_at && in_flight row.status)

-- The loop over the rows that were read: the failed rows, and the table after the claims.
unfoldable pub claim_each :
    ℕ → ℕ → List ℕ → String → List RunRow → List RunRow → List RunRow × List RunRow
unfolding failed_row
claim_each now cutoff excluded error [] runs = ([], runs)
claim_each now cutoff excluded error (read ∷ reads) runs =
    let skipped = claim_each now cutoff excluded error reads runs in
    let claimed =
      claim_each now cutoff excluded error reads
        (update_where (unclaimed read) (failed_row now error) runs) in
    if elem read.run_id excluded || leb cutoff read.updated_at
    then skipped
    else if ltb 0 (rowcount (unclaimed read) runs)
    then (failed_row now error read ∷ claimed.0, claimed.1)
    else claimed

-- `scan` is the order in which a SELECT without ORDER BY finds the rows.
-- `meanwhile` is what another process does to the file between the scan and the first claim, which
-- takes the lock for writing; `fails` says that a statement raises, and the claims are rolled back.
unfoldable pub fail_stale_runs :
    (List RunRow → List RunRow)
    → ℕ
    → (Database → Database)
    → Bool
    → Database
    → ℕ
    → List ℕ
    → String
    → Option (List RunRow) × Database
unfolding claim_each
fail_stale_runs scan now meanwhile fails db stale_after excluded error =
    let reads = scan (keep (λ r. in_flight r.status) db.app_runs) in
    let db' = meanwhile db in
    let (failed, runs) = claim_each now (now - stale_after) excluded error reads db'.app_runs in
    if fails then (none, db') else (some failed, record db' { app_runs = runs })
