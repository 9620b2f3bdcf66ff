-- ===== src/Postgres/Simulation.antt =====
-- persistence/metadata_store.py: MetadataStore against InMemoryMetadataStore, one method at a time. Most
-- methods do on the tables what those of SqliteMetadataStore do; an update of many rows at once is
-- compared with one update for each.
use skeino.Base.{
  ℕ, ◌-◌, ◌≡◌, refl, sym, ap, subst, ◌∙◌, String, Option, none, some, List, [], ◌∷◌, arith, keep,
  map,
}
use mathlib.Core.List.{Perm}
use skeino.Json.{Fields}
use skeino.Schemas.{ThreadIfExists, ThreadTtlConfig, ThreadRow, RunRow}
use skeino.Store.{ThreadUpdate, Result, ok, new_thread_row, ttl_payload, is_stale, failed_row}
use skeino.Store as Memory
use skeino.Tables.{Database, update_where, in_flight_run}
use skeino.Tables.Commands.{Command, Reply, Simulates, answer_memory, with_runs, run_key}
use skeino.Tables.Keyed.{keyed}
use skeino.Tables.Lookups.{stale, fail_loop-keyed, set_touched, none_written}
use skeino.Sqlite as Sqlite
use skeino.Sqlite.{after_conflict, touch_each}
use skeino.Sqlite.Answers.{answer_sqlite}
use skeino.Postgres as Postgres
use skeino.Postgres.{jsonb_of, stored_update, after_violation, any_in_flight, stale_run}
use skeino.Postgres.Answers.{answer_postgres}

after_violation-after_conflict :
    (k : ℕ) (e : ThreadIfExists) (found : Option ThreadRow)
    → after_violation k e found ≡ after_conflict k e found
unfolding after_violation after_conflict
after_violation-after_conflict k ThreadIfExists.do_nothing none = refl
after_violation-after_conflict k ThreadIfExists.do_nothing (some row) = refl
after_violation-after_conflict k ThreadIfExists.raise found = refl

-- A database that gives back what was written.
abbrev pub as_written : Fields → Fields
as_written fields = fields

jsonb_of-as_written : (o : Option Fields) → jsonb_of as_written o ≡ o
jsonb_of-as_written none = refl
jsonb_of-as_written (some fields) = refl

pub stored_update-as_written : (u : ThreadUpdate) → stored_update as_written u ≡ u
stored_update-as_written u = λ i. record u {
  config = jsonb_of-as_written u.config i;
  metadata = jsonb_of-as_written u.metadata i;
}

pub creates_alike :
    (scan : List RunRow → List RunRow) (db : Database) (now k : ℕ) (metadata config : Fields)
    (ttl : Option ThreadTtlConfig) (e : ThreadIfExists)
    → let c = Command.create_thread now k metadata config ttl e in
      answer_postgres as_written scan c db ≡ answer_sqlite scan c db
unfolding answer_postgres answer_sqlite Postgres.create_thread Sqlite.create_thread
    Postgres.insert_thread Sqlite.insert_thread Postgres.select_thread_row Sqlite.fetch_thread_row
creates_alike scan db now k metadata config ttl e =
    let row = new_thread_row k now metadata config (ttl_payload ttl now) in
    let same = after_violation-after_conflict k e (Sqlite.fetch_thread_row db k) in
    let created : Option Database → Result ThreadRow → Result ThreadRow × Database =
      λ inserted refused. elim inserted [ none ↦ (refused, db) | some db' ↦ (ok row, db') ] in
    ap
      (λ refused.
        let r = created (Sqlite.insert_thread db row) refused in (Reply.thread_result r.0, r.1))
      same

-- One update of many runs, or one after the other.
touched_once :
    (now k : ℕ) (ks : List ℕ) (rows : List RunRow)
    → update_where
        (any_in_flight ks)
        (set_touched now)
        (update_where (in_flight_run k) (set_touched now) rows)
      ≡ update_where (any_in_flight (k ∷ ks)) (set_touched now) rows
touched_once now k ks [] = refl
touched_once now k ks (row ∷ rows) = ground (arith, touched_once now k ks rows)

touch_each-once :
    (now : ℕ) (ks : List ℕ) (rows : List RunRow)
    → update_where (any_in_flight ks) (set_touched now) rows ≡ touch_each now rows ks
unfolding touch_each
touch_each-once now [] rows = none_written (set_touched now) rows
touch_each-once now (k ∷ ks) rows =
    sym (touched_once now k ks rows)
    ∙ touch_each-once now ks (update_where (in_flight_run k) (set_touched now) rows)

pub touches_alike :
    (scan : List RunRow → List RunRow) (db : Database) (now : ℕ) (ks : List ℕ)
    → answer_postgres as_written scan (Command.touch_runs now ks) db
      ≡ answer_sqlite scan (Command.touch_runs now ks) db
unfolding answer_postgres answer_sqlite Postgres.touch_runs Sqlite.touch_runs
touches_alike scan db now [] = refl
touches_alike scan db now (k ∷ ks) =
    ap (λ runs. (Reply.done, record db { app_runs = runs }))
      (touch_each-once now (k ∷ ks) db.app_runs)

stale_run-stale :
    (cutoff : ℕ) (excluded : List ℕ) (row : RunRow)
    → stale_run cutoff excluded row ≡ stale cutoff excluded row
unfolding is_stale
stale_run-stale cutoff excluded row = ground arith

pub fails_stale_postgres :
    (scan : List RunRow → List RunRow) (db : Database)
    → ((found : List RunRow) → Perm (scan found) found)
    → (now stale_after : ℕ) (excluded : List ℕ) (error : String)
    → Simulates
        (answer_postgres as_written scan)
        (Command.fail_stale_runs now stale_after excluded error)
        db
unfolding answer_postgres answer_memory Postgres.fail_stale_runs Memory.fail_stale_runs
fails_stale_postgres scan db p now stale_after excluded error =
    let l = fail_loop-keyed now (now - stale_after) excluded error db.app_runs in
    let t : stale_run (now - stale_after) excluded ≡ stale (now - stale_after) excluded =
      λ i. λ row. stale_run-stale (now - stale_after) excluded row i in
    let returned : List RunRow =
      map (failed_row now error) (keep (stale_run (now - stale_after) excluded) db.app_runs) in
    let r =
      ap (λ test. map (failed_row now error) (keep test db.app_runs)) t ∙ sym (ap (λ m. m.0) l) in
    (
      subst (λ rows. Perm (scan returned) rows) r (p returned),
      ap
            (λ test.
              with_runs db (keyed run_key (update_where test (failed_row now error) db.app_runs)))
            t
          ∙ sym (ap (λ m. with_runs db m.1) l),
    )
