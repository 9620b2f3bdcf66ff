-- ===== src/Sqlite/Answers.antt =====
-- persistence/sqlite_store.py: SqliteMetadataStore as a store on tables.
use skeino.Base.{false, List}
use skeino.Schemas.{RunRow}
use skeino.Tables.Commands.{Command, Reply, Backend, inserted, swept}
use skeino.Sqlite as Sqlite

-- SqliteMetadataStore, while no other process writes to the file and no statement fails
unfoldable pub answer_sqlite : (List RunRow → List RunRow) → Backend
unfolding inserted swept
answer_sqlite scan (Command.create_thread now k metadata config ttl if_exists) db =
    let (r, db') = Sqlite.create_thread now (λ d. d) db k metadata config ttl if_exists in
    (Reply.thread_result r, db')
answer_sqlite scan (Command.update_thread now now' k u) db =
    (Reply.done, Sqlite.update_thread now now' db k u)
answer_sqlite scan (Command.fetch_thread_row k) db =
    (Reply.thread_row (Sqlite.fetch_thread_row db k), db)
answer_sqlite scan (Command.delete_thread k) db = (Reply.done, Sqlite.delete_thread db k)
answer_sqlite scan (Command.create_run now k t assistant_id metadata kwargs strategy) db =
    inserted db (Sqlite.create_run now db k t assistant_id metadata kwargs strategy)
answer_sqlite scan (Command.update_run_status now k status error) db =
    let (b, db') = Sqlite.update_run_status now db k status error in (Reply.updated b, db')
answer_sqlite scan (Command.fetch_run_row t k) db =
    (Reply.run_row (Sqlite.fetch_run_row db t k), db)
answer_sqlite scan (Command.delete_run t k) db = (Reply.done, Sqlite.delete_run db t k)
answer_sqlite scan (Command.touch_runs now ks) db = (Reply.done, Sqlite.touch_runs now db ks)
answer_sqlite scan (Command.fail_stale_runs now stale_after excluded error) db =
    swept (Sqlite.fail_stale_runs scan now (λ d. d) false db stale_after excluded error)
