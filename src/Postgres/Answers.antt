-- ===== src/Postgres/Answers.antt =====
-- persistence/metadata_store.py: MetadataStore as a store on tables.
use skeino.Base.{List}
use skeino.Json.{Fields}
use skeino.Schemas.{RunRow}
use skeino.Tables.Commands.{Command, Reply, Backend, inserted}
use skeino.Postgres as Postgres

-- MetadataStore, while no statement fails and no one else writes between the two statements of
-- `create_thread`, and while the process and the database read one clock
unfoldable pub answer_postgres : (Fields → Fields) → (List RunRow → List RunRow) → Backend
unfolding inserted
answer_postgres jsonb scan (Command.create_thread now k metadata config ttl if_exists) db =
    let (r, db') =
      Postgres.create_thread jsonb now now (λ d. d) db k metadata config ttl if_exists in
    (Reply.thread_result r, db')
answer_postgres jsonb scan (Command.update_thread now now' k u) db =
    (Reply.done, Postgres.update_thread jsonb now db k u)
answer_postgres jsonb scan (Command.fetch_thread_row k) db =
    (Reply.thread_row (Postgres.fetch_thread_row db k), db)
answer_postgres jsonb scan (Command.delete_thread k) db = (Reply.done, Postgres.delete_thread db k)
answer_postgres jsonb scan (Command.create_run now k t assistant_id metadata kwargs strategy) db =
    inserted db (Postgres.create_run jsonb now db k t assistant_id metadata kwargs strategy)
answer_postgres jsonb scan (Command.update_run_status now k status error) db =
    let (b, db') = Postgres.update_run_status now db k status error in (Reply.updated b, db')
answer_postgres jsonb scan (Command.fetch_run_row t k) db =
    (Reply.run_row (Postgres.fetch_run_row db t k), db)
answer_postgres jsonb scan (Command.delete_run t k) db = (Reply.done, Postgres.delete_run db t k)
answer_postgres jsonb scan (Command.touch_runs now ks) db =
    (Reply.done, Postgres.touch_runs now db ks)
answer_postgres jsonb scan (Command.fail_stale_runs now stale_after excluded error) db =
    let (rows, db') = Postgres.fail_stale_runs scan now db stale_after excluded error in
    (Reply.failed_rows rows, db')
