-- ===== src/Postgres/Refinement.antt =====
-- persistence/metadata_store.py: sequences of calls of MetadataStore against the same calls of
-- InMemoryMetadataStore.
use skeino.Base.{
  ◌||◌, refl, ◌∙◌, if◌then◌else◌, map, [], ◌∷◌, Option, none, some, ◌≡◌, sym, ap, subst, List,
}
use mathlib.Core.List.{Perm}
use skeino.Json.{Fields}
use skeino.Schemas.{RunRow}
use skeino.Store.{ThreadUpdate, updated_row}
use skeino.Tables.{Database, is_given, assigns, update_where, of_thread}
use skeino.Tables.Commands.{
  Command, Reply, SameReply, Simulates, answer_memory, contents, IsKeyed, IsAdmissible,
}
use skeino.Tables.Refinement.{
  run_memory, run_tables, AreAdmissible, SameReplies, run_tables_refines,
}
use skeino.Sqlite as Sqlite
use skeino.Sqlite.Answers.{answer_sqlite}
use skeino.Sqlite.Refinement.{answer_sqlite-Simulates}
use skeino.Postgres as Postgres
use skeino.Postgres.{jsonb_of, stored_update}
use skeino.Postgres.Answers.{answer_postgres}
use skeino.Postgres.Simulation.{
  as_written, stored_update-as_written, creates_alike, touches_alike, fails_stale_postgres,
}

-- The two readings of the clock of an update are one.
abbrev pub IsTimed : Command → Database → Type 0
IsTimed (Command.update_thread now now' k u) db =
    (now ≡ now') × IsAdmissible (Command.update_thread now now' k u) db
IsTimed command db = IsAdmissible command db

module _ (scan : List RunRow → List RunRow)
    (p : (found : List RunRow) → Perm (scan found) found) where
  as_sqlite :
      (c : Command) (db : Database)
      → answer_postgres as_written scan c db ≡ answer_sqlite scan c db
      → Simulates (answer_sqlite scan) c db
      → Simulates (answer_postgres as_written scan) c db
  as_sqlite c db e h =
      subst
        (λ r.
          SameReply r.0 (answer_memory c (contents db)).0
          × (contents r.1 ≡ (answer_memory c (contents db)).1))
        (sym e) h

  answer_postgres-Simulates :
      (c : Command) (db : Database)
      → IsKeyed db
      → IsTimed c db
      → Simulates (answer_postgres as_written scan) c db
  unfolding answer_postgres answer_sqlite Postgres.update_thread Sqlite.update_thread
      Postgres.fetch_thread_row Postgres.select_thread_row Sqlite.fetch_thread_row
      Postgres.delete_thread Sqlite.delete_thread Postgres.create_run Sqlite.create_run
      Postgres.update_run_status Sqlite.update_run_status Postgres.fetch_run_row
      Sqlite.fetch_run_row Postgres.delete_run Sqlite.delete_run
  answer_postgres-Simulates (Command.create_thread now k m f ttl e) db v a =
      as_sqlite _ db (creates_alike scan db now k m f ttl e)
        (answer_sqlite-Simulates scan p (Command.create_thread now k m f ttl e) db v a)
  answer_postgres-Simulates (Command.update_thread now now' k u) db v a =
      as_sqlite (Command.update_thread now now' k u) db
        (ap
            (λ v. (
              Reply.done,
              if assigns u
                  then record db {
                    app_threads = update_where (of_thread k) (updated_row now now v) db.app_threads;
                  }
                  else db,
            ))
            (stored_update-as_written u)
          ∙ ap (λ t. (Reply.done, Sqlite.update_thread now t db k u)) a.0)
        (answer_sqlite-Simulates scan p (Command.update_thread now now' k u) db v a.1)
  answer_postgres-Simulates (Command.fetch_thread_row k) db v a =
      answer_sqlite-Simulates scan p (Command.fetch_thread_row k) db v a
  answer_postgres-Simulates (Command.delete_thread k) db v a =
      answer_sqlite-Simulates scan p (Command.delete_thread k) db v a
  answer_postgres-Simulates (Command.create_run now k t i m f s) db v a =
      answer_sqlite-Simulates scan p (Command.create_run now k t i m f s) db v a
  answer_postgres-Simulates (Command.update_run_status now k status e) db v a =
      answer_sqlite-Simulates scan p (Command.update_run_status now k status e) db v a
  answer_postgres-Simulates (Command.fetch_run_row t k) db v a =
      answer_sqlite-Simulates scan p (Command.fetch_run_row t k) db v a
  answer_postgres-Simulates (Command.delete_run t k) db v a =
      answer_sqlite-Simulates scan p (Command.delete_run t k) db v a
  answer_postgres-Simulates (Command.touch_runs now ks) db v a =
      as_sqlite _ db (touches_alike scan db now ks)
        (answer_sqlite-Simulates scan p (Command.touch_runs now ks) db v a)
  answer_postgres-Simulates (Command.fail_stale_runs now age ks e) db v a =
      fails_stale_postgres scan db p now age ks e

-- The call whose JSON dicts are those that come back from the database.
abbrev pub stored : (Fields → Fields) → Command → Command
stored jsonb (Command.create_thread now k metadata config ttl if_exists) =
    Command.create_thread now k (jsonb metadata) (jsonb config) ttl if_exists
stored jsonb (Command.update_thread now now' k u) =
    Command.update_thread now now' k (stored_update jsonb u)
stored jsonb (Command.create_run now k t assistant_id metadata kwargs strategy) =
    Command.create_run now k t assistant_id (jsonb metadata) (jsonb kwargs) strategy
stored jsonb command = command

module _ (jsonb : Fields → Fields) (scan : List RunRow → List RunRow) where
  is_given-jsonb_of : (o : Option Fields) → is_given (jsonb_of jsonb o) ≡ is_given o
  is_given-jsonb_of none = refl
  is_given-jsonb_of (some fields) = refl

  assigns-stored_update : (u : ThreadUpdate) → assigns (stored_update jsonb u) ≡ assigns u
  assigns-stored_update u = λ i.
      is_given u.status_value
      || is_given-jsonb_of u.config i
      || is_given-jsonb_of u.metadata i
      || u.mark_state_updated

  answer_postgres-stored :
      (c : Command) (db : Database)
      → answer_postgres jsonb scan c db ≡ answer_postgres as_written scan (stored jsonb c) db
  unfolding answer_postgres Postgres.update_thread Postgres.create_thread Postgres.create_run
  answer_postgres-stored (Command.create_thread now k m f ttl e) db = refl
  answer_postgres-stored (Command.update_thread now now' k u) db =
      let v = stored_update jsonb u in
      λ i. (
        Reply.done,
        if sym (assigns-stored_update u) i
            then record db {
              app_threads =
                  update_where (of_thread k)
                    (updated_row now now (sym (stored_update-as_written v) i)) db.app_threads;
            }
            else db,
      )
  answer_postgres-stored (Command.fetch_thread_row k) db = refl
  answer_postgres-stored (Command.delete_thread k) db = refl
  answer_postgres-stored (Command.create_run now k t i m f s) db = refl
  answer_postgres-stored (Command.update_run_status now k status e) db = refl
  answer_postgres-stored (Command.fetch_run_row t k) db = refl
  answer_postgres-stored (Command.delete_run t k) db = refl
  answer_postgres-stored (Command.touch_runs now ks) db = refl
  answer_postgres-stored (Command.fail_stale_runs now age ks e) db = refl

  stored-IsTimed : (c : Command) (db : Database) → IsTimed c db → IsTimed (stored jsonb c) db
  stored-IsTimed (Command.create_thread now k m f ttl e) db a = tt
  stored-IsTimed (Command.update_thread now now' k u) db a = (a.0, assigns-stored_update u ∙ a.1)
  stored-IsTimed (Command.fetch_thread_row k) db a = tt
  stored-IsTimed (Command.delete_thread k) db a = tt
  stored-IsTimed (Command.create_run now k t i m f s) db a = a
  stored-IsTimed (Command.update_run_status now k status e) db a = tt
  stored-IsTimed (Command.fetch_run_row t k) db a = tt
  stored-IsTimed (Command.delete_run t k) db a = tt
  stored-IsTimed (Command.touch_runs now ks) db a = tt
  stored-IsTimed (Command.fail_stale_runs now age ks e) db a = tt

  run_tables-stored :
      (cs : List Command) (db : Database)
      → run_tables (answer_postgres jsonb scan) cs db
        ≡ run_tables (answer_postgres as_written scan) (map (stored jsonb) cs) db
  unfolding run_tables
  run_tables-stored [] db = refl
  run_tables-stored (c ∷ cs) db =
      ap
        (λ (r : Reply × Database).
          let (replies, db') = run_tables (answer_postgres jsonb scan) cs r.1 in
          (r.0 ∷ replies, db'))
        (answer_postgres-stored c db)
      ∙ (let r = answer_postgres as_written scan (stored jsonb c) db in
          ap (λ (q : List Reply × Database). (r.0 ∷ q.0, q.1)) (run_tables-stored cs r.1))

  stored-AreAdmissible :
      (cs : List Command) (db : Database)
      → AreAdmissible IsTimed (answer_postgres jsonb scan) cs db
      → AreAdmissible IsTimed (answer_postgres as_written scan) (map (stored jsonb) cs) db
  stored-AreAdmissible [] db a = tt
  stored-AreAdmissible (c ∷ cs) db a = (
    stored-IsTimed c db a.0,
    stored-AreAdmissible cs (answer_postgres as_written scan (stored jsonb c) db).1 (
        subst (λ (r : Reply × Database). AreAdmissible IsTimed (answer_postgres jsonb scan) cs r.1)
          (answer_postgres-stored c db) a.1),
  )

-- For every sequence of admissible calls on a database whose primary keys hold, with one clock for the
-- process and the database, and while no statement fails and no one else writes between the two statements
-- of a creation, the Postgres store gives the replies that the in-memory store gives, on the tables of that
-- database, to the same calls with each dict of metadata, config and kwargs replaced by the one that
-- comes back from a JSONB column, the rows of a sweep in any order; the database afterwards stands for the
-- in-memory store afterwards, and its primary keys hold again.
pub answer_postgres_refines :
    (jsonb : Fields → Fields) (scan : List RunRow → List RunRow) (cs : List Command) (db : Database)
    → ((found : List RunRow) → Perm (scan found) found)
    → IsKeyed db
    → AreAdmissible IsTimed (answer_postgres jsonb scan) cs db
    → let (replies, db') = run_tables (answer_postgres jsonb scan) cs db in
      let (expected, s') = run_memory (map (stored jsonb) cs) (contents db) in
      SameReplies replies expected × (contents db' ≡ s') × IsKeyed db'
answer_postgres_refines jsonb scan cs db p v a =
    let h =
      run_tables_refines IsTimed (answer_postgres as_written scan)
        (answer_postgres-Simulates scan p) (map (stored jsonb) cs) db v
        (stored-AreAdmissible jsonb scan cs db a) in
    subst
      (λ (r : List Reply × Database).
        let (expected, s') = run_memory (map (stored jsonb) cs) (contents db) in
        SameReplies r.0 expected × (contents r.1 ≡ s') × IsKeyed r.1)
      (sym (run_tables-stored jsonb scan cs db)) h
