-- ===== src/Sqlite/Refinement.antt =====
-- persistence/sqlite_store.py: sequences of calls of SqliteMetadataStore against the same calls of
-- InMemoryMetadataStore.
use skeino.Base.{◌≡◌, List}
use mathlib.Core.List.{Perm}
use skeino.Schemas.{RunRow}
use skeino.Tables.{Database}
use skeino.Tables.Commands.{Command, Simulates, contents, IsKeyed, IsAdmissible}
use skeino.Tables.Refinement.{
  run_memory, run_tables, AreAdmissible, SameReplies, run_tables_refines,
}
use skeino.Sqlite.Answers.{answer_sqlite}
use skeino.Sqlite.Simulation.{
  creates_thread, updates_thread, fetches_thread, creates_run, updates_run, fetches_run,
  deletes_run, deletes_thread, touches, fails_stale,
}

-- One call.
pub answer_sqlite-Simulates :
    (scan : List RunRow → List RunRow)
    → ((found : List RunRow) → Perm (scan found) found)
    → (c : Command) (db : Database) → IsKeyed db
    → IsAdmissible c db
    → Simulates (answer_sqlite scan) c db
answer_sqlite-Simulates scan p (Command.create_thread now k m f ttl e) db v a =
    creates_thread scan db v now k m f ttl e
answer_sqlite-Simulates scan p (Command.update_thread now now' k u) db v a =
    updates_thread scan db v now now' k u a
answer_sqlite-Simulates scan p (Command.fetch_thread_row k) db v a = fetches_thread scan db v k
answer_sqlite-Simulates scan p (Command.delete_thread k) db v a = deletes_thread scan db v k
answer_sqlite-Simulates scan p (Command.create_run now k t i m f s) db v a =
    creates_run scan db v now k t i m f s a.0 a.1
answer_sqlite-Simulates scan p (Command.update_run_status now k status e) db v a =
    updates_run scan db v now k status e
answer_sqlite-Simulates scan p (Command.fetch_run_row t k) db v a = fetches_run scan db v t k
answer_sqlite-Simulates scan p (Command.delete_run t k) db v a = deletes_run scan db v t k
answer_sqlite-Simulates scan p (Command.touch_runs now ks) db v a = touches scan db v now ks
answer_sqlite-Simulates scan p (Command.fail_stale_runs now age ks e) db v a =
    fails_stale scan db v p now age ks e

-- For every sequence of admissible calls on a database whose primary keys hold, while no other process
-- writes to the file and no statement fails, SQLite's store gives the replies that the in-memory store
-- gives on the tables of that database, the rows of a sweep in any order; the database afterwards stands
-- for the in-memory store afterwards, and its primary keys hold again.
pub answer_sqlite_refines :
    (scan : List RunRow → List RunRow) (cs : List Command) (db : Database)
    → ((found : List RunRow) → Perm (scan found) found)
    → IsKeyed db
    → AreAdmissible IsAdmissible (answer_sqlite scan) cs db
    → let (replies, db') = run_tables (answer_sqlite scan) cs db in
      let (expected, s') = run_memory cs (contents db) in
      SameReplies replies expected × (contents db' ≡ s') × IsKeyed db'
answer_sqlite_refines scan cs db p v a =
    run_tables_refines IsAdmissible (answer_sqlite scan) (answer_sqlite-Simulates scan p) cs db v a
