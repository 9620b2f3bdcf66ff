-- ===== src/Sqlite/Listing.antt =====
-- persistence/sqlite_store.py: the two listings, `search_thread_rows` and `list_run_rows`, against those
-- of the in-memory store.
use skeino.Base.{ℕ, ◌≡◌, ap, ◌∙◌, true, not, Option, take, drop, map, sort}
use skeino.Schemas.{RunStatus, ThreadSearchRequest}
use skeino.Store.{sort_key, resolve_sort_by, id_allowed, status_allowed, run_status_allowed}
use skeino.Store as Memory
use skeino.Tables.{Database, Sorts, IsOrderBy, on_thread}
use skeino.Sqlite as Sqlite
use skeino.Tables.Listing.{order_by-sort, filtered}
use skeino.Tables.Commands.{run_key}
use skeino.Tables.Commands.{thread_key, contents}

-- A page of threads that SQLite finds has, row by row, the sort keys of the page that the in-memory
-- store finds, and a page of runs the creation times, whatever SQLite's order among equal keys.
pub listings_agree :
    (sorts : Sorts) (db : Database) (request : ThreadSearchRequest) (thread_id limit offset : ℕ)
    (status : Option RunStatus)
    → IsOrderBy sorts.order_threads
    → IsOrderBy sorts.order_runs
    → let key = sort_key (resolve_sort_by request) in
      (map key (Sqlite.search_thread_rows sorts db request)
        ≡ map key (Memory.search_thread_rows (contents db) request))
      × (map (λ r. r.created_at) (Sqlite.list_run_rows sorts db thread_id limit offset status)
          ≡ map
              (λ r. r.created_at)
              (Memory.list_run_rows (contents db) thread_id limit offset status))
unfolding Sqlite.search_thread_rows Memory.search_thread_rows Sqlite.list_run_rows
    Memory.list_run_rows
listings_agree sorts db request thread_id limit offset status ot or =
    let key = sort_key (resolve_sort_by request) in
    let found =
      filtered thread_key (id_allowed request.ids) (status_allowed request.status) db.app_threads in
    let listed = filtered run_key (on_thread thread_id) (run_status_allowed status) db.app_runs in
    (
      order_by-sort sorts.order_threads key (not request.ascending) request.limit request.offset _
            ot
          ∙ ap
              (λ rows.
                map key (
                  take request.limit (drop request.offset (sort key (not request.ascending) rows))))
              found,
      order_by-sort sorts.order_runs (λ r. r.created_at) true limit offset _ or
          ∙ ap
              (λ rows.
                map (λ r. r.created_at)
                  (take limit (drop offset (sort (λ r. r.created_at) true rows))))
              listed,
    )
