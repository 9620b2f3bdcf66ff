-- ===== src/Sqlite/Simulation.antt =====
-- persistence/sqlite_store.py: SqliteMetadataStore against InMemoryMetadataStore, one method at a time.
-- Both answer the same, and the database stands for the same store afterwards.
use skeino.Base.{
  ℕ, ◌-◌, ◌≡◌, refl, sym, ap, ap₂, ◌∙◌, String, true, false, Option, List, [], ◌∷◌, Unique, subst,
  get, contains, contains-get-none, Option-cases, inl, inr,
}
use mathlib.Core.List.{Perm}
use skeino.Json.{Fields}
use skeino.Schemas.{RunStatus, MultitaskStrategy, ThreadIfExists, ThreadTtlConfig, RunRow}
use skeino.Store.{Store, ThreadUpdate, updated_row, runs_outside, touch_run, touch_all}
use skeino.Store as Memory
use skeino.Tables.{Database, update_where, on_thread, in_flight_run, assigns}
use skeino.Sqlite.{touch_each, insert_thread, after_conflict}
use skeino.Sqlite as Sqlite
use skeino.Tables.Keyed.{
  keyed, fetchone-keyed, is_empty-keyed, keyed-insert, keyed-update, rowcount-update, keyed-delete,
  fetchone_if, keyed-delete_if,
}
use skeino.Sqlite.Orders.{claim_each-fail_loop_scanned}
use skeino.Sqlite.Answers.{answer_sqlite}
use skeino.Tables.Commands.{
  Command, Reply, run_key, with_threads, with_runs, Simulates, answer_memory, inserted, swept,
  thread_key, contents, IsKeyed,
}
use skeino.Tables.Lookups.{
  not_false_lem, not_true_lem, update-keyed_thread, contains-get-some, touch_run-assigned,
  assigned-Unique, set_touched, keyed-runs_outside, update_thread-assigned, fetch_run_row-allowed,
  delete_run-deleted, update_run_status-assigned, in_flight_row, set_status,
}

keyed-touch_each :
    (now : ℕ) (run_ids : List ℕ) (rows : List RunRow)
    → Unique (keyed run_key rows)
    → keyed run_key (touch_each now rows run_ids) ≡ touch_all now (keyed run_key rows) run_ids
unfolding touch_each touch_all
keyed-touch_each now [] rows u = refl
keyed-touch_each now (k ∷ run_ids) rows u =
    let e =
      keyed-update run_key in_flight_row (set_touched now) (λ row. refl) rows k u
      ∙ sym (touch_run-assigned now (keyed run_key rows) k) in
    let a = touch_run-assigned now (keyed run_key rows) k in
    let w = assigned-Unique now (keyed run_key rows) k (get (keyed run_key rows) k) u in
    keyed-touch_each now run_ids (update_where (in_flight_run k) (set_touched now) rows)
      (subst Unique (sym (e ∙ a)) w)
    ∙ ap (λ d. touch_all now d run_ids) e

module _ (scan : List RunRow → List RunRow) (db : Database) (v : IsKeyed db) where
  abbrev pub Simulated : Command → Type 0
  Simulated c = Simulates (answer_sqlite scan) c db

  pub creates_thread :
      (now k : ℕ) (metadata config : Fields) (ttl : Option ThreadTtlConfig)
      (if_exists : ThreadIfExists)
      → Simulated (Command.create_thread now k metadata config ttl if_exists)
  unfolding answer_sqlite answer_memory Sqlite.create_thread Memory.create_thread insert_thread
      Sqlite.fetch_thread_row
  creates_thread now k metadata config ttl if_exists =
      let d = keyed thread_key db.app_threads in
      let row = Memory.new_thread_row k now metadata config (Memory.ttl_payload ttl now) in
      let f = fetchone-keyed thread_key db.app_threads k in
      let c = is_empty-keyed thread_key db.app_threads k in
      let i = keyed-insert thread_key db.app_threads row in
      elim (Option-cases (get d k)) [
        | inl e ↦
            let n = contains-get-none d k e in
            let b = not_false_lem _ (c ∙ n) in
            rw (e, b, Sqlite.create_thread, Memory.create_thread) (refl, ap (with_threads db) (i n))
        | inr (existing, e) ↦
            let b = not_true_lem _ (c ∙ contains-get-some d k existing e) in
            let r = f ∙ e in
            elim if_exists as (λ x. Simulated (Command.create_thread now k metadata config ttl x)) [
              | ThreadIfExists.do_nothing ↦
                  rw (e, b, Sqlite.create_thread, Memory.create_thread, Sqlite.fetch_thread_row, r)
                    (refl, refl)
              | ThreadIfExists.raise ↦
                  rw (e, b, Sqlite.create_thread, Memory.create_thread) (refl, refl)
            ]
      ]

  pub updates_thread :
      (now now' k : ℕ) (u : ThreadUpdate)
      → assigns u ≡ true
      → Simulated (Command.update_thread now now' k u)
  unfolding answer_sqlite answer_memory Sqlite.update_thread updated_row
  updates_thread now now' k u a = (
    refl,
    rw (a, Sqlite.update_thread)
          (ap (with_threads db)
            (update-keyed_thread (updated_row now now' u) (λ row. refl) db.app_threads k v.threads))
        ∙ sym (update_thread-assigned (contents db) now now' k u),
  )

  pub fetches_thread : (k : ℕ) → Simulated (Command.fetch_thread_row k)
  unfolding answer_sqlite answer_memory Sqlite.fetch_thread_row Memory.fetch_thread_row
  fetches_thread k = (ap Reply.thread_row (fetchone-keyed thread_key db.app_threads k), refl)

  pub creates_run :
      (now k t : ℕ) (assistant_id : String) (metadata kwargs : Fields)
      (strategy : MultitaskStrategy)
      → contains (keyed run_key db.app_runs) k ≡ false
      → contains (keyed thread_key db.app_threads) t ≡ true
      → Simulated (Command.create_run now k t assistant_id metadata kwargs strategy)
  unfolding answer_sqlite answer_memory inserted Sqlite.create_run Memory.create_run
      Memory.new_run_row
  creates_run now k t assistant_id metadata kwargs strategy h g =
      let row = Memory.new_run_row k t now assistant_id metadata kwargs strategy in
      let f = not_false_lem _ (is_empty-keyed run_key db.app_runs k ∙ h) in
      let o = is_empty-keyed thread_key db.app_threads t ∙ g in
      let i = keyed-insert run_key db.app_runs row h in
      rw (Sqlite.create_run, f, o, inserted) (refl, ap (with_runs db) i)

  pub updates_run :
      (now k : ℕ) (status : RunStatus) (error : Option String)
      → Simulated (Command.update_run_status now k status error)
  unfolding answer_sqlite answer_memory Sqlite.update_run_status
  updates_run now k status error =
      let set = set_status now status error in
      let h = keyed-update run_key in_flight_row set (λ row. refl) db.app_runs k v.runs in
      let c = rowcount-update run_key in_flight_row set db.app_runs k v.runs in
      let m = update_run_status-assigned (contents db) now k status error in
      (ap Reply.updated (c ∙ sym (ap (λ r. r.0) m)), ap (with_runs db) h ∙ sym (ap (λ r. r.1) m))

  pub fetches_run : (t k : ℕ) → Simulated (Command.fetch_run_row t k)
  unfolding answer_sqlite answer_memory Sqlite.fetch_run_row
  fetches_run t k =
      let h = fetchone_if run_key (on_thread t) db.app_runs k v.runs in
      (ap Reply.run_row (h ∙ sym (fetch_run_row-allowed (contents db) t k)), refl)

  pub deletes_run : (t k : ℕ) → Simulated (Command.delete_run t k)
  unfolding answer_sqlite answer_memory Sqlite.delete_run
  deletes_run t k =
      let h = keyed-delete_if run_key (on_thread t) db.app_runs k v.runs in
      (refl, ap (with_runs db) h ∙ sym (delete_run-deleted (contents db) t k))

  pub deletes_thread : (k : ℕ) → Simulated (Command.delete_thread k)
  unfolding answer_sqlite answer_memory Sqlite.delete_thread Memory.delete_thread
  deletes_thread k = (
    refl,
    ap₂ (λ threads runs. record { threads = threads; runs = runs })
        (keyed-delete thread_key db.app_threads k) (keyed-runs_outside db.app_runs k),
  )

  pub touches : (now : ℕ) (ks : List ℕ) → Simulated (Command.touch_runs now ks)
  unfolding answer_sqlite answer_memory Sqlite.touch_runs Memory.touch_runs touch_all
  touches now [] = (refl, refl)
  touches now (k ∷ ks) =
      (refl, ap (with_runs db) (keyed-touch_each now (k ∷ ks) db.app_runs v.runs))

  pub fails_stale :
      ((found : List RunRow) → Perm (scan found) found)
      → (now stale_after : ℕ) (excluded : List ℕ) (error : String)
      → Simulated (Command.fail_stale_runs now stale_after excluded error)
  unfolding answer_sqlite answer_memory Sqlite.fail_stale_runs Memory.fail_stale_runs swept
  fails_stale p now stale_after excluded error =
      let h =
        claim_each-fail_loop_scanned now (now - stale_after) excluded error scan db.app_runs p
          v.runs in
      (h.0, ap (with_runs db) h.1)
