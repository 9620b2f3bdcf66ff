-- ===== src/Tables.antt =====
-- The tables app_threads and app_runs of persistence/sqlite_store.py and persistence/metadata_store.py, and
-- the documents of persistence/mongo_store.py: the list of the rows in insertion order, and what a
-- statement documents of itself. WHERE selects rows, UPDATE changes the selected rows in place and counts
-- them, INSERT is refused if the primary key is taken or a foreign key has no row. The order of an ORDER
-- BY among equal keys, and of a SELECT without one, is the engine's, so sorts and scans are parameters.
-- Commands: the methods as commands, and the interface that a store fills; Lookups: the methods of the
-- in-memory store by what they find under a key; Keyed: a table against a dict under its primary key;
-- Refinement: sequences of commands; Listing: the two listings.
pub mod Keyed
pub mod Commands
pub mod Lookups
pub mod Permuted
pub mod Refinement
pub mod Listing
use skeino.Base.{
  ℕ, ◌+◌, ◌-◌, ◌≡◌, String, Bool, true, false, not, ◌&&◌, ◌||◌, Option, none, some, List, [], ◌∷◌,
  ◌++◌, ◌==◌, ltb, leb, if◌then◌else◌, take, drop, keep, elem, is_empty, length, IsSorted,
}
use mathlib.Core.List.{Perm}
use skeino.Json.{Fields}
use skeino.Schemas.{
  ThreadStatus, RunStatus, MultitaskStrategy, ThreadIfExists, ThreadTtlConfig, ThreadRow, RunRow,
  ThreadSearchRequest, in_flight,
}
use skeino.Errors.{HttpError}
use skeino.Store.{
  Result, ok, err, ThreadUpdate, new_thread_row, new_run_row, ttl_payload, updated_row, id_allowed,
  status_allowed, resolve_sort_by, sort_key, run_status_allowed, failed_row,
}

pub record Database : Type 0 where
  pub app_threads : List ThreadRow
  pub app_runs : List RunRow

-- The sorts of SQLite: by a key, ascending or descending.
pub record Sorts : Type 0 where
  pub order_threads : (ThreadRow → ℕ) → Bool → List ThreadRow → List ThreadRow
  pub order_runs : (RunRow → ℕ) → Bool → List RunRow → List RunRow

-- What SQLite documents of ORDER BY.
pub record IsOrderBy {A : Type 0} (order : (A → ℕ) → Bool → List A → List A) : Type 0 where
  pub rearranges :
      (key : A → ℕ) (descending : Bool) (rows : List A) → Perm (order key descending rows) rows
  pub orders :
      (key : A → ℕ) (descending : Bool) (rows : List A)
      → IsSorted key descending (order key descending rows)

module _ {A : Type 0} where
  -- fetchone
  abbrev pub fetchone : List A → Option A
  fetchone [] = none
  fetchone (row ∷ rows) = some row

  -- UPDATE ... SET ... WHERE ...
  abbrev pub update_where : (A → Bool) → (A → A) → List A → List A
  update_where test set [] = []
  update_where test set (row ∷ rows) =
      (if test row then set row else row) ∷ update_where test set rows

  -- cursor.rowcount
  abbrev pub rowcount : (A → Bool) → List A → ℕ
  rowcount test rows = length (keep test rows)

  -- DELETE ... WHERE ...
  abbrev pub delete_where : (A → Bool) → List A → List A
  delete_where test = keep (λ row. not (test row))

-- The WHERE clauses.
abbrev pub of_thread : ℕ → ThreadRow → Bool
of_thread thread_id row = row.thread_id == thread_id

abbrev pub on_thread : ℕ → RunRow → Bool
on_thread thread_id row = row.thread_id == thread_id

abbrev pub of_run : ℕ → ℕ → RunRow → Bool
of_run thread_id run_id row = row.run_id == run_id && row.thread_id == thread_id

abbrev pub in_flight_run : ℕ → RunRow → Bool
in_flight_run run_id row = row.run_id == run_id && in_flight row.status

abbrev pub is_given {ℓ} : {A : Type ℓ} → Option A → Bool
is_given none = false
is_given (some value) = true

-- `len(assignments) > 1`
abbrev pub assigns : ThreadUpdate → Bool
assigns u =
    is_given u.status_value || is_given u.config || is_given u.metadata || u.mark_state_updated
