-- ===== src/Tables/Refinement.antt =====
-- persistence/base.py: sequences of calls of a store on tables against the same calls of
-- InMemoryMetadataStore.
use skeino.Base.{
  ℕ, ◌≡◌, refl, sym, ap, subst, ◌∙◌, Option, List, [], ◌∷◌, get, Unique, put-Unique, remove-Unique,
  Option-cases, inl, inr,
}
use skeino.Json.{Fields}
use skeino.Schemas.{ThreadTtlConfig, ThreadIfExists, RunRow}
use skeino.Store.{Store}
use skeino.Store as Memory
use skeino.Store.Table.{RunOp, run_step, IsRunTable, run_step-IsRunTable}
use skeino.Tables.{Database}
use skeino.Tables.Keyed.{keyed}
use skeino.Tables.Commands.{
  Command, Reply, Backend, SameReply, Simulates, answer_memory, run_key, contents, IsKeyed,
}
use skeino.Tables.Lookups.{delete_run-deleted, update_run_status-assigned}

keyed-IsRunTable :
    (rows : List RunRow) → Unique (keyed run_key rows) → IsRunTable (keyed run_key rows)
keyed-IsRunTable [] u = record { unique = tt; filed = tt }
keyed-IsRunTable (row ∷ rows) u =
    let t = keyed-IsRunTable rows u.1 in record { unique = u; filed = (refl, t.filed) }

-- A creation leaves the runs alone, and keeps the threads under different ids.
create_thread-Unique :
    (now : ℕ) (s : Store) (k : ℕ) (m f : Fields) (ttl : Option ThreadTtlConfig) (e : ThreadIfExists)
    → Unique s.threads
    → let s' = (Memory.create_thread now s k m f ttl e).1 in (s'.runs ≡ s.runs) × Unique s'.threads
unfolding Memory.create_thread
create_thread-Unique now s k m f ttl e u = elim (Option-cases (get s.threads k)) [
  | inl h ↦ rw (h, Memory.create_thread) (refl, put-Unique s.threads k _ u)
  | inr (row, h) ↦
      elim e
        as (λ x.
          let s' = (Memory.create_thread now s k m f ttl x).1 in
          (s'.runs ≡ s.runs) × Unique s'.threads) [
            | ThreadIfExists.do_nothing ↦ rw (h, Memory.create_thread) (refl, u)
            | ThreadIfExists.raise ↦ rw (h, Memory.create_thread) (refl, u)
          ]
]

threads-Unique : (c : Command) (s : Store) → Unique s.threads → Unique (answer_memory c s).1.threads
unfolding answer_memory Memory.update_thread Memory.delete_thread Memory.create_run
    Memory.touch_runs Memory.fail_stale_runs Memory.update_run_status Memory.delete_run
threads-Unique (Command.create_thread now k m f ttl e) s u =
    (create_thread-Unique now s k m f ttl e u).1
threads-Unique (Command.update_thread now now' k v) s u = elim (Option-cases (get s.threads k)) [
  | inl e ↦ rw (e, Memory.update_thread) u
  | inr (row, e) ↦ rw (e, Memory.update_thread) (put-Unique s.threads k _ u)
]
threads-Unique (Command.fetch_thread_row k) s u = u
threads-Unique (Command.delete_thread k) s u = remove-Unique s.threads k u
threads-Unique (Command.create_run now k t i m f strategy) s u = u
threads-Unique (Command.update_run_status now k status e) s u =
    rw (update_run_status-assigned s now k status e) u
threads-Unique (Command.fetch_run_row t k) s u = u
threads-Unique (Command.delete_run t k) s u = rw (delete_run-deleted s t k) u
threads-Unique (Command.touch_runs now ks) s u = u
threads-Unique (Command.fail_stale_runs now age ks e) s u = u

runs-Unique :
    (c : Command) (s : Store)
    → Unique s.threads
    → IsRunTable s.runs
    → Unique (answer_memory c s).1.runs
unfolding answer_memory run_step Memory.update_thread
runs-Unique (Command.create_thread now k m f ttl e) s u v =
    subst Unique (sym (create_thread-Unique now s k m f ttl e u).0) v.unique
runs-Unique (Command.update_thread now now' k w) s u v = elim (Option-cases (get s.threads k)) [
  | inl e ↦ rw (e, Memory.update_thread) v.unique
  | inr (row, e) ↦ rw (e, Memory.update_thread) v.unique
]
runs-Unique (Command.fetch_thread_row k) s u v = v.unique
runs-Unique (Command.delete_thread k) s u v =
    (run_step-IsRunTable (RunOp.deletes_thread k) s v).unique
runs-Unique (Command.create_run now k t i m f strategy) s u v =
    (run_step-IsRunTable (RunOp.creates now k t i m f strategy) s v).unique
runs-Unique (Command.update_run_status now k status e) s u v =
    (run_step-IsRunTable (RunOp.sets_status now k status e) s v).unique
runs-Unique (Command.fetch_run_row t k) s u v = v.unique
runs-Unique (Command.delete_run t k) s u v =
    (run_step-IsRunTable (RunOp.deletes_run t k) s v).unique
runs-Unique (Command.touch_runs now ks) s u v =
    (run_step-IsRunTable (RunOp.touches now ks) s v).unique
runs-Unique (Command.fail_stale_runs now age ks e) s u v =
    (run_step-IsRunTable (RunOp.fails_stale now age ks e) s v).unique

-- A sequence of calls: the replies, and the store after it.
unfoldable pub run_memory : List Command → Store → List Reply × Store
run_memory [] s = ([], s)
run_memory (c ∷ cs) s =
    let (reply, s') = answer_memory c s in
    let (replies, s'') = run_memory cs s' in (reply ∷ replies, s'')

unfoldable pub run_tables : Backend → List Command → Database → List Reply × Database
run_tables backend [] db = ([], db)
run_tables backend (c ∷ cs) db =
    let (reply, db') = backend c db in
    let (replies, db'') = run_tables backend cs db' in (reply ∷ replies, db'')

-- Each call is admissible where it is made.
abbrev pub AreAdmissible :
    (Command → Database → Type 0) → Backend → List Command → Database → Type 0
AreAdmissible admits backend [] db = Unit
AreAdmissible admits backend (c ∷ cs) db =
    admits c db × AreAdmissible admits backend cs (backend c db).1

abbrev pub SameReplies : List Reply → List Reply → Type 0
SameReplies [] [] = Unit
SameReplies (reply ∷ replies) (reply' ∷ replies') =
    SameReply reply reply' × SameReplies replies replies'
SameReplies replies replies' = ⊥

module _ (admits : Command → Database → Type 0) (backend : Backend)
    (one : (c : Command) (db : Database) → IsKeyed db → admits c db → Simulates backend c db) where
  keeps_keys :
      (c : Command) (db : Database) → IsKeyed db → Simulates backend c db → IsKeyed (backend c db).1
  keeps_keys c db v h = record {
    threads =
        subst (λ (s : Store). Unique s.threads) (sym h.1)
          (threads-Unique c (contents db) v.threads);
    runs =
        subst (λ (s : Store). Unique s.runs) (sym h.1)
          (runs-Unique c (contents db) v.threads (keyed-IsRunTable db.app_runs v.runs));
  }

  -- A store that simulates single calls simulates sequences of them, and its primary keys hold again.
  pub run_tables_refines :
      (cs : List Command) (db : Database)
      → IsKeyed db
      → AreAdmissible admits backend cs db
      → let (replies, db') = run_tables backend cs db in
        let (expected, s') = run_memory cs (contents db) in
        SameReplies replies expected × (contents db' ≡ s') × IsKeyed db'
  unfolding run_tables run_memory
  run_tables_refines [] db v a = (tt, refl, v)
  run_tables_refines (c ∷ cs) db v a =
      let h = one c db v a.0 in
      let db' = (backend c db).1 in
      let t = run_tables_refines cs db' (keeps_keys c db v h) a.1 in
      (
        (h.0, subst (λ s. SameReplies (run_tables backend cs db').0 (run_memory cs s).0) h.1 t.0),
        t.1 ∙ ap (λ s. (run_memory cs s).1) h.1,
        t.2,
      )
