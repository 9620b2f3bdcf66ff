-- ===== src/Postgres.antt =====
-- persistence/metadata_store.py: MetadataStore, on PostgreSQL. NOW() is the start of the transaction, one
-- reading of the database's clock for each method; `utcnow` is the clock of the process. The columns
-- metadata, config and kwargs are JSONB: the database does not keep a dict as it was written, but a value
-- of its own (with its order of the keys and its spelling of numbers), and answers with that. `jsonb` is
-- the dict that comes back for a written one. The column ttl is JSONB too; its dict has fixed keys, and is
-- a record here.
pub mod Answers
pub mod Simulation
pub mod Refinement
pub mod Listing
use skeino.Base.{
  ℕ, ◌-◌, String, Bool, true, false, not, ◌&&◌, Option, none, some, List, [], ◌∷◌, ◌++◌, ◌==◌, ltb,
  if◌then◌else◌, take, drop, keep, elem, is_empty, map,
}
use skeino.Json.{Fields}
use skeino.Schemas.{
  RunStatus, MultitaskStrategy, ThreadIfExists, ThreadTtlConfig, ThreadRow, RunRow, SortField,
  ThreadSearchRequest, in_flight,
}
use skeino.Errors.{HttpError}
use skeino.Store.{
  Result, ok, err, ThreadUpdate, new_thread_row, new_run_row, ttl_payload, updated_row, id_allowed,
  status_allowed, resolve_sort_by, sort_key, run_status_allowed, failed_row,
}
use skeino.Tables.{
  Database, Sorts, fetchone, update_where, rowcount, delete_where, of_thread, on_thread, of_run,
  in_flight_run, assigns,
}

unfoldable pub select_thread_row : Database → ℕ → Option ThreadRow
select_thread_row db thread_id = fetchone (keep (of_thread thread_id) db.app_threads)

unfoldable pub fetch_thread_row : Database → ℕ → Option ThreadRow
unfolding select_thread_row
fetch_thread_row db thread_id = select_thread_row db thread_id

-- INSERT INTO app_threads ... RETURNING; none: UniqueViolation
unfoldable pub insert_thread : Database → ThreadRow → Option Database
insert_thread db row =
    if is_empty (keep (of_thread row.thread_id) db.app_threads)
    then some (record db { app_threads = db.app_threads ++ row ∷ [] })
    else none

-- The `except` clause, with the row that is read again on this connection.
unfoldable pub after_violation : ℕ → ThreadIfExists → Option ThreadRow → Result ThreadRow
after_violation thread_id ThreadIfExists.do_nothing none = err (HttpError.thread_reread thread_id)
after_violation thread_id ThreadIfExists.do_nothing (some existing_row) = ok existing_row
after_violation thread_id ThreadIfExists.raise existing_row =
    err (HttpError.thread_exists thread_id)

-- `at` is NOW(); `meanwhile` is what others do between the refused insertion and the second reading.
unfoldable pub create_thread :
    (Fields → Fields)
    → ℕ
    → ℕ
    → (Database → Database)
    → Database
    → ℕ
    → Fields
    → Fields
    → Option ThreadTtlConfig
    → ThreadIfExists
    → Result ThreadRow × Database
unfolding new_thread_row ttl_payload insert_thread after_violation select_thread_row
create_thread jsonb now at meanwhile db thread_id metadata config ttl if_exists =
    let row = new_thread_row thread_id at (jsonb metadata) (jsonb config) (ttl_payload ttl now) in
    elim (insert_thread db row) [
      | some db' ↦ (ok row, db')
      | none ↦ (
        after_violation thread_id if_exists (select_thread_row (meanwhile db) thread_id),
        meanwhile db,
      )
    ]

abbrev pub jsonb_of : (Fields → Fields) → Option Fields → Option Fields
jsonb_of jsonb none = none
jsonb_of jsonb (some fields) = some (jsonb fields)

-- The parameters of an update, as the database stores them.
abbrev pub stored_update : (Fields → Fields) → ThreadUpdate → ThreadUpdate
stored_update jsonb u = record u {
  config = jsonb_of jsonb u.config;
  metadata = jsonb_of jsonb u.metadata;
}

unfoldable pub update_thread : (Fields → Fields) → ℕ → Database → ℕ → ThreadUpdate → Database
unfolding updated_row
update_thread jsonb at db thread_id u =
    if assigns u
    then record db {
      app_threads =
          update_where (of_thread thread_id) (updated_row at at (stored_update jsonb u))
            db.app_threads;
    }
    else db

unfoldable pub delete_thread : Database → ℕ → Database
delete_thread db thread_id = record {
  app_runs = delete_where (on_thread thread_id) db.app_runs;
  app_threads = delete_where (of_thread thread_id) db.app_threads;
}

-- NULL, which only `state_updated_at` can be, counts as greater than every value.
unfoldable pub is_null : SortField → ThreadRow → Bool
is_null SortField.state_updated_at r = elim r.state_updated_at [ none ↦ true | some t ↦ false ]
is_null SortField.thread_id r = false
is_null SortField.status r = false
is_null SortField.created_at r = false
is_null SortField.updated_at r = false

unfoldable pub order_threads_by : Sorts → SortField → Bool → List ThreadRow → List ThreadRow
unfolding is_null sort_key
order_threads_by sorts field ascending found =
    let nulls = keep (is_null field) found in
    let values = keep (λ r. not (is_null field r)) found in
    let sorted = sorts.order_threads (sort_key field) (not ascending) values in
    if ascending then sorted ++ nulls else nulls ++ sorted

unfoldable pub search_thread_rows : Sorts → Database → ThreadSearchRequest → List ThreadRow
unfolding id_allowed status_allowed resolve_sort_by order_threads_by
search_thread_rows sorts db request =
    let found =
      keep (λ r. id_allowed request.ids r && status_allowed request.status r) db.app_threads in
    take request.limit (
      drop request.offset
        (order_threads_by sorts (resolve_sort_by request) request.ascending found))

-- none: a violation of the primary key or of the thread's foreign key reaches the caller
unfoldable pub create_run :
    (Fields → Fields)
    → ℕ
    → Database
    → ℕ
    → ℕ
    → String
    → Fields
    → Fields
    → MultitaskStrategy
    → Option (RunRow × Database)
unfolding new_run_row
create_run jsonb at db run_id thread_id assistant_id metadata kwargs multitask_strategy =
    let row =
      new_run_row run_id thread_id at assistant_id (jsonb metadata) (jsonb kwargs)
        multitask_strategy in
    if is_empty (keep (λ r. r.run_id == run_id) db.app_runs)
      && not (is_empty (keep (of_thread thread_id) db.app_threads))
    then some (row, record db { app_runs = db.app_runs ++ row ∷ [] })
    else none

unfoldable pub update_run_status : ℕ → Database → ℕ → RunStatus → Option String → Bool × Database
update_run_status at db run_id status_value error = (
  ltb 0 (rowcount (in_flight_run run_id) db.app_runs),
  record db {
    app_runs =
        update_where (in_flight_run run_id)
          (λ row. record row { status = status_value; updated_at = at; error = error }) db.app_runs;
  },
)

unfoldable pub fetch_run_row : Database → ℕ → ℕ → Option RunRow
fetch_run_row db thread_id run_id = fetchone (keep (of_run thread_id run_id) db.app_runs)

unfoldable pub list_run_rows : Sorts → Database → ℕ → ℕ → ℕ → Option RunStatus → List RunRow
unfolding run_status_allowed
list_run_rows sorts db thread_id limit offset status_value =
    let found =
      keep (λ r. on_thread thread_id r && run_status_allowed status_value r) db.app_runs in
    take limit (drop offset (sorts.order_runs (λ r. r.created_at) true found))

unfoldable pub delete_run : Database → ℕ → ℕ → Database
delete_run db thread_id run_id = record db {
  app_runs = delete_where (of_run thread_id run_id) db.app_runs;
}

-- WHERE run_id = ANY(...)
abbrev pub any_in_flight : List ℕ → RunRow → Bool
any_in_flight run_ids row = elem row.run_id run_ids && in_flight row.status

unfoldable pub touch_runs : ℕ → Database → List ℕ → Database
touch_runs at db run_ids = if is_empty run_ids then db else record db {
  app_runs =
      update_where (any_in_flight run_ids) (λ row. record row { updated_at = at }) db.app_runs;
}

-- The WHERE clause of the sweep.
abbrev pub stale_run : ℕ → List ℕ → RunRow → Bool
stale_run cutoff exclude_run_ids row =
    in_flight row.status && (ltb row.updated_at cutoff && not (elem row.run_id exclude_run_ids))

-- UPDATE ... RETURNING; `scan` is the order in which the rows are returned.
unfoldable pub fail_stale_runs :
    (List RunRow → List RunRow) → ℕ → Database → ℕ → List ℕ → String → List RunRow × Database
unfolding failed_row
fail_stale_runs scan at db stale_after exclude_run_ids error =
    let cutoff = at - stale_after in
    (
      scan (map (failed_row at error) (keep (stale_run cutoff exclude_run_ids) db.app_runs)),
      record db {
        app_runs =
            update_where (stale_run cutoff exclude_run_ids) (failed_row at error) db.app_runs;
      },
    )
