-- ===== src/Postgres/Listing.antt =====
-- persistence/metadata_store.py: the two listings against those of SqliteMetadataStore and
-- InMemoryMetadataStore.
use skeino.Base.{
  ℕ, ◌≡◌, ◌≢◌, refl, ap, ◌∙◌, Bool, true, false, not, ◌&&◌, Option, List, [], ◌∷◌, ◌++◌, take, drop,
  map, keep, if◌then◌else◌,
}
use mathlib.Core.List.{append-nil}
use skeino.Schemas.{RunStatus, ThreadRow, ThreadSearchRequest, SortField}
use skeino.Store.{sort_key, resolve_sort_by, id_allowed, status_allowed}
use skeino.Store as Memory
use skeino.Tables.{Database, Sorts, IsOrderBy}
use skeino.Tables.Commands.{contents}
use skeino.Sqlite as Sqlite
use skeino.Sqlite.Listing.{listings_agree}
use skeino.Postgres as Postgres
use skeino.Postgres.{order_threads_by, is_null}

module _ {A : Type 0} where
  keep_all : (rows : List A) → keep (λ row. true) rows ≡ rows
  keep_all [] = refl
  keep_all (row ∷ rows) = ap (λ l. row ∷ l) (keep_all rows)

  keep_none : (rows : List A) → keep (λ row. false) rows ≡ []
  keep_none [] = refl
  keep_none (row ∷ rows) = keep_none rows

  around :
      (ascending : Bool) (rows : List A) → (if ascending then rows ++ [] else [] ++ rows) ≡ rows
  around true rows = append-nil rows
  around false rows = refl

module _ (sorts : Sorts) (ascending : Bool) (found : List ThreadRow) where
  abbrev OrdersPlainly : SortField → Type 0
  OrdersPlainly field =
      order_threads_by sorts field ascending found
      ≡ sorts.order_threads (sort_key field) (not ascending) found

  -- By a column that holds no NULL.
  order_threads_by_plain :
      (field : SortField) → field ≢ SortField.state_updated_at → OrdersPlainly field
  unfolding order_threads_by is_null
  order_threads_by_plain SortField.thread_id h =
      rw (keep_all found, keep_none found) (around ascending _)
  order_threads_by_plain SortField.status h =
      rw (keep_all found, keep_none found) (around ascending _)
  order_threads_by_plain SortField.created_at h =
      rw (keep_all found, keep_none found) (around ascending _)
  order_threads_by_plain SortField.updated_at h =
      rw (keep_all found, keep_none found) (around ascending _)
  order_threads_by_plain SortField.state_updated_at h = absurd (h refl)

-- Unless the threads are sorted by `state_updated_at`, a page of threads that Postgres finds has, row by
-- row, the sort keys of the page that the in-memory store finds; a page of runs has the creation times
-- in any case; both whatever Postgres' order among equal keys.
pub postgres_listings_agree :
    (sorts : Sorts) (db : Database) (request : ThreadSearchRequest) (thread_id limit offset : ℕ)
    (status : Option RunStatus)
    → IsOrderBy sorts.order_threads
    → IsOrderBy sorts.order_runs
    → resolve_sort_by request ≢ SortField.state_updated_at
    → let key = sort_key (resolve_sort_by request) in
      (map key (Postgres.search_thread_rows sorts db request)
        ≡ map key (Memory.search_thread_rows (contents db) request))
      × (map (λ r. r.created_at) (Postgres.list_run_rows sorts db thread_id limit offset status)
          ≡ map
              (λ r. r.created_at)
              (Memory.list_run_rows (contents db) thread_id limit offset status))
unfolding Postgres.search_thread_rows Sqlite.search_thread_rows Postgres.list_run_rows
    Sqlite.list_run_rows
postgres_listings_agree sorts db request thread_id limit offset status ot or h =
    let l = listings_agree sorts db request thread_id limit offset status ot or in
    let o =
      order_threads_by_plain sorts request.ascending
        (keep (λ r. id_allowed request.ids r && status_allowed request.status r) db.app_threads)
        (resolve_sort_by request) h in
    (
      ap
            (λ rows.
              map (sort_key (resolve_sort_by request))
                (take request.limit (drop request.offset rows)))
            o
          ∙ l.0,
      l.1,
    )
