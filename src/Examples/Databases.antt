-- ===== src/Examples/Databases.antt =====
-- A database with the thread 2 and its run 9, in flight.
use skeino.Base.{
  false, get, arith, ◌≡◌, ◌≢◌, refl, true, none, some, List, [], ◌∷◌, map, sort, sort-perm,
  sort-IsSorted,
}
use mathlib.Core.List.Perm
use skeino.Json.{Json, Fields}
use skeino.Schemas.{
  ThreadStatus, ThreadIfExists, MultitaskStrategy, SortField, ThreadSearchRequest, RunRow,
}
use skeino.Store.{
  ThreadUpdate, sort_key, resolve_sort_by, new_thread_row, new_run_row, ttl_payload, updated_row,
  failed_row,
}
use skeino.Store as Memory
use skeino.Tables.{Database, Sorts, IsOrderBy}
use skeino.Tables.Commands.{run_key, Command, contents, IsKeyed, IsAdmissible, inserted}
use skeino.Tables.Refinement.{run_memory, run_tables, AreAdmissible, SameReplies}
use skeino.Sqlite as Sqlite
use skeino.Postgres as Postgres
use skeino.Postgres.Answers.{answer_postgres}
use skeino.Postgres.Refinement.{stored, IsTimed, answer_postgres_refines}
use skeino.Postgres.Listing.{postgres_listings_agree}
use skeino.Sqlite.Answers.{answer_sqlite}
use skeino.Sqlite.Refinement.{answer_sqlite_refines}
use skeino.Sqlite.Heartbeats.{reports, heartbeat_wins}
use skeino.Tables.Keyed.{keyed}
use skeino.Sqlite.Listing.{listings_agree}
use skeino.Examples.Runs.{home, waiting}

abbrev one_thread : Database
one_thread = record { app_threads = home ∷ []; app_runs = waiting ∷ [] }

one_thread-IsKeyed : IsKeyed one_thread
one_thread-IsKeyed = record { threads = (refl, tt); runs = (refl, tt) }

-- For a new thread 3: a run, its heartbeat, a sweep that fails both runs, and the deletion of the thread.
abbrev calls_on_created : List Command
calls_on_created =
    Command.create_run 51 10 3 "agent" Fields.end Fields.end MultitaskStrategy.enqueue
    ∷ Command.touch_runs 60 (10 ∷ [])
    ∷ Command.fail_stale_runs 90 5 [] "lost"
    ∷ Command.delete_thread 3
    ∷ []

abbrev calls : List Command
calls =
    Command.create_thread 50 3 Fields.end Fields.end none ThreadIfExists.raise ∷ calls_on_created

abbrev in_order : List RunRow → List RunRow
in_order found = found

calls-AreAdmissible : AreAdmissible IsAdmissible (answer_sqlite in_order) calls one_thread
unfolding answer_sqlite Sqlite.create_thread Sqlite.insert_thread Sqlite.create_run inserted
    new_thread_row ttl_payload new_run_row
calls-AreAdmissible = (tt, ((refl, refl), (tt, (tt, (tt, tt)))))

answer_sqlite_refines_example :
    let (replies, db') = run_tables (answer_sqlite in_order) calls one_thread in
    let (expected, s') = run_memory calls (contents one_thread) in
    SameReplies replies expected × (contents db' ≡ s') × IsKeyed db'
answer_sqlite_refines_example =
    answer_sqlite_refines in_order calls one_thread (λ found. Perm.refl found) one_thread-IsKeyed
      calls-AreAdmissible

abbrev stable : Sorts
stable = record {
  order_threads = λ key descending rows. sort key descending rows;
  order_runs = λ key descending rows. sort key descending rows;
}

sort-IsOrderBy : {A : Type 0} → IsOrderBy {A = A} (λ key descending rows. sort key descending rows)
sort-IsOrderBy = record {
  rearranges = λ key descending rows. sort-perm key descending rows;
  orders = λ key descending rows. sort-IsSorted key descending rows;
}

abbrev by_creation : ThreadSearchRequest
by_creation = record {
  ids = none;
  metadata = none;
  values = none;
  status = some ThreadStatus.idle;
  limit = 5;
  offset = 0;
  sort_by = some SortField.created_at;
  ascending = true;
}

listings_agree_example :
    let key = sort_key (resolve_sort_by by_creation) in
    (map key (Sqlite.search_thread_rows stable one_thread by_creation)
      ≡ map key (Memory.search_thread_rows (contents one_thread) by_creation))
    × (map (λ (r : RunRow). r.created_at) (Sqlite.list_run_rows stable one_thread 2 10 0 none)
        ≡ map
            (λ (r : RunRow). r.created_at)
            (Memory.list_run_rows (contents one_thread) 2 10 0 none))
listings_agree_example =
    listings_agree stable one_thread by_creation 2 10 0 none sort-IsOrderBy sort-IsOrderBy

-- A database that gives the two keys of a dict back in the other order.
abbrev swapped : Fields → Fields
swapped (Fields.field k v (Fields.field k' v' Fields.end)) =
    Fields.field k' v' (Fields.field k v Fields.end)
swapped fields = fields

abbrev tagged : Fields
tagged = Fields.field "zz" (Json.str "1") (Fields.field "a" (Json.str "2") Fields.end)

abbrev tagged_calls : List Command
tagged_calls =
    Command.create_thread 50 3 tagged Fields.end none ThreadIfExists.raise
    ∷ Command.fetch_thread_row 3
    ∷ calls_on_created

calls-AreTimed : AreAdmissible IsTimed (answer_postgres swapped in_order) tagged_calls one_thread
unfolding answer_postgres Postgres.create_thread Postgres.insert_thread Postgres.create_run inserted
    new_thread_row ttl_payload new_run_row
calls-AreTimed = (tt, (tt, ((refl, refl), (tt, (tt, (tt, tt))))))

answer_postgres_refines_example :
    let (replies, db') = run_tables (answer_postgres swapped in_order) tagged_calls one_thread in
    let (expected, s') = run_memory (map (stored swapped) tagged_calls) (contents one_thread) in
    SameReplies replies expected × (contents db' ≡ s') × IsKeyed db'
answer_postgres_refines_example =
    answer_postgres_refines swapped in_order tagged_calls one_thread (λ found. Perm.refl found)
      one_thread-IsKeyed calls-AreTimed

by_creation_plain : resolve_sort_by by_creation ≢ SortField.state_updated_at
unfolding resolve_sort_by
by_creation_plain = λ e. cc

postgres_listings_agree_example :
    let key = sort_key (resolve_sort_by by_creation) in
    (map key (Postgres.search_thread_rows stable one_thread by_creation)
      ≡ map key (Memory.search_thread_rows (contents one_thread) by_creation))
    × (map (λ (r : RunRow). r.created_at) (Postgres.list_run_rows stable one_thread 2 10 0 none)
        ≡ map
            (λ (r : RunRow). r.created_at)
            (Memory.list_run_rows (contents one_thread) 2 10 0 none))
postgres_listings_agree_example =
    postgres_listings_agree stable one_thread by_creation 2 10 0 none sort-IsOrderBy sort-IsOrderBy
      by_creation_plain

-- Another process heartbeats the run 9 between the scan and the claims.
abbrev beating : RunRow
beating = record waiting { updated_at = 80 }

abbrev heartbeat : Database → Database
heartbeat db = record db { app_runs = beating ∷ [] }

heartbeat_wins_example :
    let (reply, db') = Sqlite.fail_stale_runs in_order 90 heartbeat false one_thread 5 [] "lost" in
    (get (keyed run_key db'.app_runs) 9 ≡ some beating) × (reports 9 reply ≡ false)
heartbeat_wins_example =
    heartbeat_wins in_order 90 heartbeat false one_thread 5 [] "lost" 9 waiting beating
      (λ found. Perm.refl found) one_thread-IsKeyed
      (record { threads = (refl, tt); runs = (refl, tt) }) refl refl (omega arith)
