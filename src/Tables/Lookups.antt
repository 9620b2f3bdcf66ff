-- ===== src/Tables/Lookups.antt =====
-- persistence/in_memory_store.py: its methods by what they find under a key, in a table with a primary
-- key.
use skeino.Base.{
  keep, map, ℕ, ◌≡◌, refl, ap, ◌∙◌, String, Bool, true, false, not, ◌&&◌, Option, none, some, List,
  [], ◌∷◌, arith, Dict, get, contains, Unique, put-Unique, Bool-cases, Option-cases, inl, inr,
}
use skeino.Schemas.{RunStatus, ThreadRow, RunRow, in_flight}
use skeino.Store.{
  Store, ThreadUpdate, updated_row, runs_outside, touch_run, touch_all, is_stale, failed_row,
  fail_loop,
}
use skeino.Store as Memory
use skeino.Tables.{update_where, delete_where, of_thread, on_thread}
use skeino.Tables.Keyed.{keyed, has_key, keyed-update, assigned, counted, allowed, deleted}
use skeino.Tables.Commands.{run_key, thread_key}

pub not_false_lem : (b : Bool) → not b ≡ false → b ≡ true
not_false_lem true h = refl
not_false_lem false h = cc

pub not_true_lem : (b : Bool) → not b ≡ true → b ≡ false
not_true_lem true h = cc
not_true_lem false h = refl

abbrev pub in_flight_row : RunRow → Bool
in_flight_row row = in_flight row.status

abbrev pub set_status : ℕ → RunStatus → Option String → RunRow → RunRow
set_status now status error row = record row { status = status; updated_at = now; error = error }

abbrev pub set_touched : ℕ → RunRow → RunRow
set_touched now row = record row { updated_at = now }

-- An update of every row of one thread.
pub update-keyed_thread :
    (set : ThreadRow → ThreadRow) (same : (row : ThreadRow) → (set row).thread_id ≡ row.thread_id)
    (rows : List ThreadRow) (k : ℕ)
    → Unique (keyed thread_key rows)
    → keyed thread_key (update_where (of_thread k) set rows)
      ≡ assigned thread_key
          (λ row. true)
          set
          (keyed thread_key rows)
          k
          (get (keyed thread_key rows) k)
update-keyed_thread set same rows k u =
    let e : (row : ThreadRow) → of_thread k row ≡ (has_key thread_key k row && true) =
      λ row. ground arith in
    ap (λ t. keyed thread_key (update_where t set rows)) (λ i. λ row. e row i)
    ∙ keyed-update thread_key (λ row. true) set same rows k u

-- The methods of the in-memory store, by what they find under the key.
module _ (s : Store) where
  pub update_thread-assigned :
      (now now' k : ℕ) (u : ThreadUpdate)
      → Memory.update_thread now now' s k u ≡ record s {
        threads =
            assigned thread_key
              (λ row. true)
              (updated_row now now' u)
              s.threads
              k
              (get s.threads k);
      }
  unfolding Memory.update_thread
  update_thread-assigned now now' k u = elim (Option-cases (get s.threads k)) [
    | inl e ↦ rw (e, Memory.update_thread)
    | inr (row, e) ↦ rw (e, Memory.update_thread)
  ]

  pub fetch_run_row-allowed :
      (t k : ℕ) → Memory.fetch_run_row s t k ≡ allowed run_key (on_thread t) (get s.runs k)
  unfolding Memory.fetch_run_row
  fetch_run_row-allowed t k = elim (Option-cases (get s.runs k)) [
    | inl e ↦ rw (e, Memory.fetch_run_row)
    | inr (row, e) ↦ rw (e, Memory.fetch_run_row)
  ]

  pub delete_run-deleted :
      (t k : ℕ)
      → Memory.delete_run s t k
        ≡ record s { runs = deleted run_key (on_thread t) s.runs k (get s.runs k) }
  unfolding Memory.delete_run
  delete_run-deleted t k = elim (Option-cases (get s.runs k)) [
    | inl e ↦ rw (e, Memory.delete_run)
    | inr (row, e) ↦ rw (e, Memory.delete_run) (ground arith)
  ]

  pub update_run_status-assigned :
      (now k : ℕ) (status : RunStatus) (error : Option String)
      → Memory.update_run_status now s k status error ≡ (
        counted run_key in_flight_row (set_status now status error) (get s.runs k),
        record s {
          runs =
              assigned run_key in_flight_row (set_status now status error) s.runs k (get s.runs k);
        },
      )
  unfolding Memory.update_run_status
  update_run_status-assigned now k status error = elim (Option-cases (get s.runs k)) [
    | inl e ↦ rw (e, Memory.update_run_status)
    | inr (row, e) ↦ elim (Bool-cases (in_flight row.status)) [
      | inl y ↦ rw (e, Memory.update_run_status, y)
      | inr n ↦ rw (e, Memory.update_run_status, n)
    ]
  ]

pub touch_run-assigned :
    (now : ℕ) (d : Dict RunRow) (k : ℕ)
    → touch_run now d k ≡ assigned run_key in_flight_row (set_touched now) d k (get d k)
unfolding touch_run
touch_run-assigned now d k = elim (Option-cases (get d k)) [
  | inl e ↦ rw (e, touch_run)
  | inr (row, e) ↦ rw (e, touch_run)
]

-- An UPDATE that selects nothing.
pub none_written :
    {A : Type 0} (set : A → A) (rows : List A) → update_where (λ row. false) set rows ≡ rows
none_written set [] = refl
none_written set (row ∷ rows) = ap (λ l. row ∷ l) (none_written set rows)

pub contains-get-some :
    {V : Type 0} (d : Dict V) (k : ℕ) (v : V) → get d k ≡ some v → contains d k ≡ true
contains-get-some [] k v e = cc
contains-get-some ((j, w) ∷ d) k v e = ground (arith, contains-get-some d k v)

pub assigned-Unique :
    (now : ℕ) (d : Dict RunRow) (k : ℕ) (found : Option RunRow)
    → Unique d
    → Unique (assigned run_key in_flight_row (set_touched now) d k found)
assigned-Unique now d k none u = u
assigned-Unique now d k (some row) u = ground (arith, put-Unique d k (set_touched now row) u)

pub keyed-runs_outside :
    (rows : List RunRow) (t : ℕ)
    → keyed run_key (delete_where (on_thread t) rows) ≡ runs_outside t (keyed run_key rows)
unfolding runs_outside
keyed-runs_outside [] t = refl
keyed-runs_outside (row ∷ rows) t = ground (arith, keyed-runs_outside rows t)

abbrev pub stale : ℕ → List ℕ → RunRow → Bool
stale cutoff excluded row = is_stale cutoff excluded row.run_id row

module _ (now cutoff : ℕ) (excluded : List ℕ) (error : String) where
  abbrev pub swept_rows : List RunRow → List RunRow
  swept_rows = update_where (stale cutoff excluded) (failed_row now error)

  abbrev pub failures : List RunRow → List RunRow
  failures rows = map (failed_row now error) (keep (stale cutoff excluded) rows)

  pub fail_loop-keyed :
      (rows : List RunRow)
      → fail_loop now cutoff excluded error (keyed run_key rows)
        ≡ (failures rows, keyed run_key (swept_rows rows))
  unfolding fail_loop failed_row
  fail_loop-keyed [] = refl
  fail_loop-keyed (row ∷ rows) = elim (Bool-cases (stale cutoff excluded row)) [
    | inl t ↦ rw (fail_loop-keyed rows, t) refl
    | inr f ↦ rw (fail_loop-keyed rows, f) refl
  ]
