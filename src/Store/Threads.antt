-- ===== src/Store/Threads.antt =====
-- The thread rows: creation, update, and deletion with the thread's runs; and status writes.
use skeino.Base.{
  ◌⊎◌, Bool, true, false, ℕ, ◌≡◌, refl, inl, inr, String, Option, none, some, arith, ◌==◌,
  if◌then◌else◌, Bool-cases, Option-cases, get, put, get-put_self, get-put_ne, get-remove_self,
  get-remove_ne,
}
use skeino.Json.{Fields}
use skeino.Schemas.{RunStatus, ThreadIfExists, ThreadTtlConfig, RunRow, ThreadRow, in_flight}
use skeino.Errors.{HttpError}
use skeino.Store.{
  Store, update_run_status, delete_thread, fetch_run_row, fetch_thread_row, create_thread,
  new_thread_row, update_thread, updated_row, ThreadUpdate, ok, err, ttl_payload,
}
use skeino.Store.Rows.{InFlight, in_flight-InFlight, done-InFlight, get-runs_outside}
use skeino.Store.Table.{IsRunTable}

module _ (now : ℕ) (s : Store) (t : ℕ) (metadata config : Fields)
    (ttl : Option ThreadTtlConfig) where
  create-free :
      (if_exists : ThreadIfExists)
      → get s.threads t ≡ none
      → let row = new_thread_row t now metadata config (ttl_payload ttl now) in
        create_thread now s t metadata config ttl if_exists
        ≡ (ok row, record s { threads = put s.threads t row })
  unfolding create_thread
  create-free if_exists free = rw (free, create_thread)

  create-taken :
      (row : ThreadRow)
      → get s.threads t ≡ some row
      → (create_thread now s t metadata config ttl ThreadIfExists.do_nothing ≡ (ok row, s))
        × (create_thread now s t metadata config ttl ThreadIfExists.raise
            ≡ (err (HttpError.thread_exists t), s))
  unfolding create_thread
  create-taken row taken = (rw (taken, create_thread), rw (taken, create_thread))

-- Creating a thread under a free id returns the fresh idle row and stores it; creating it again
-- returns that row under `do_nothing` and is a 409 under `raise`, and changes nothing either way.
create_thread_again :
    (now later : ℕ) (s : Store) (t : ℕ) (metadata config metadata' config' : Fields)
    (ttl ttl' : Option ThreadTtlConfig) (if_exists : ThreadIfExists)
    → fetch_thread_row s t ≡ none
    → let row = new_thread_row t now metadata config (ttl_payload ttl now) in
      let (result, s') = create_thread now s t metadata config ttl if_exists in
      (result ≡ ok row)
      × (fetch_thread_row s' t ≡ some row)
      × (create_thread later s' t metadata' config' ttl' ThreadIfExists.do_nothing ≡ (ok row, s'))
      × (create_thread later s' t metadata' config' ttl' ThreadIfExists.raise
          ≡ (err (HttpError.thread_exists t), s'))
unfolding fetch_thread_row
create_thread_again now later s t metadata config metadata' config' ttl ttl' if_exists free =
    let row = new_thread_row t now metadata config (ttl_payload ttl now) in
    let stored : get (put s.threads t row) t ≡ some row = get-put_self s.threads t row in
    let s' = record s { threads = put s.threads t row } in
    let taken = create-taken later s' t metadata' config' ttl' row stored in
    rw (create-free now s t metadata config ttl if_exists free) (refl, stored, taken.0, taken.1)

abbrev pub on_thread : (ThreadRow → ThreadRow) → Option ThreadRow → Option ThreadRow
on_thread f none = none
on_thread f (some row) = some (f row)

-- An update writes the given fields of that thread's row and its `updated_at`, creates no row, and
-- leaves every other thread and all runs alone.
fetch_thread_row-update_thread :
    (now now' : ℕ) (s : Store) (t j : ℕ) (u : ThreadUpdate)
    → let s' = update_thread now now' s t u in
      (fetch_thread_row s' j ≡ (
        if t == j
        then on_thread (updated_row now now' u) (fetch_thread_row s j)
        else fetch_thread_row s j))
      × (s'.runs ≡ s.runs)
unfolding update_thread fetch_thread_row
fetch_thread_row-update_thread now now' s t j u = elim (Option-cases (get s.threads t)) [
  | inl e ↦ rw (e, update_thread) (ground arith, refl)
  | inr (row, e) ↦
      rw (e, update_thread)
        (
          ground (
            arith,
            get-put_self s.threads t (updated_row now now' u row),
            get-put_ne s.threads t (updated_row now now' u row) j,
          ),
          refl,
        )
]

-- Deleting a thread removes its row and exactly its runs: none of them is found any more, and
-- every other thread, with its runs, reads as before.
delete_thread_exact :
    (s : Store) (t u r : ℕ)
    → IsRunTable s.runs
    → let s' = delete_thread s t in
      (fetch_thread_row s' u ≡ (if t == u then none else fetch_thread_row s u))
      × (fetch_run_row s' u r ≡ (if t == u then none else fetch_run_row s u r))
unfolding delete_thread fetch_thread_row fetch_run_row
delete_thread_exact s t u r v = (
  ground (arith, get-remove_self s.threads t, get-remove_ne s.threads t u),
  ground (arith, get-runs_outside t s.runs r v.unique),
)

-- What a status write comes to, by the row that it finds; `j` is any run.
abbrev pub IsStatusWrite :
    ℕ → Store → ℕ → ℕ → RunStatus → Option String → Option RunRow → Bool × Store → Type 0
IsStatusWrite now s r j status error none (written, s') = (written ≡ false) × (s' ≡ s)
IsStatusWrite now s r j status error (some row) (written, s') =
    (InFlight row.status
      × (written ≡ true)
      × (get s'.runs j ≡ (
          if r == j
          then some (record row { status = status; updated_at = now; error = error })
          else get s.runs j))
      × (s'.threads ≡ s.threads))
    ⊎ ((¬ InFlight row.status) × (written ≡ false) × (s' ≡ s))

-- A status write reports success exactly when the run is there and is pending or running. It then gives
-- that run the new status, error text and time, and changes nothing else; on failure, for an absent or an
-- ended run, it changes nothing at all.
pub update_run_status_outcome :
    (now : ℕ) (s : Store) (r j : ℕ) (status : RunStatus) (error : Option String)
    → IsStatusWrite now s r j status error (get s.runs r) (update_run_status now s r status error)
unfolding update_run_status
update_run_status_outcome now s r j status error = elim (Option-cases (get s.runs r)) [
  | inl e ↦ rw (e, update_run_status) (refl, refl)
  | inr (row, e) ↦ elim (Bool-cases (in_flight row.status)) [
    | inl live ↦
        let row' = record row { status = status; updated_at = now; error = error } in
        rw (e, update_run_status, live)
          (inl (
            in_flight-InFlight row.status live,
            refl,
            ground (arith, get-put_self s.runs r row', get-put_ne s.runs r row' j),
            refl,
          ))
    | inr done ↦ rw (e, update_run_status, done) (inr (done-InFlight row.status done, refl, refl))
  ]
]
