-- ===== src/Store.antt =====
-- persistence/in_memory_store.py and the helpers of persistence/_common.py. Each method takes the
-- store and returns it with the result; the clock readings that it makes come first. A row is
-- replaced where the code mutates it in place. The properties are in the modules below.
pub mod Rows
pub mod Table
pub mod Final
pub mod Sweep
pub mod Search
pub mod Listing
pub mod Threads
use skeino.Base.{
  ℕ, zero, suc, ◌+◌, ◌-◌, ◌*◌, String, Bool, true, false, not, ◌&&◌, Option, none, some, List, [],
  ◌∷◌, ◌==◌, ltb, if◌then◌else◌, take, drop, keep, elem, is_empty, Dict, get, put, remove, values,
  sort,
}
use skeino.Json.{Fields}
use skeino.Schemas.{
  ThreadStatus, RunStatus, MultitaskStrategy, ThreadIfExists, ThreadTtlConfig, TtlPayload,
  ThreadRow, RunRow, SortField, ThreadSearchRequest, thread_rank, thread_status_eq, run_status_eq,
  in_flight,
}
use skeino.Errors.{HttpError}

pub data Result {ℓ} (A : Type ℓ) : Type ℓ where
  ok : A → Result A
  err : HttpError → Result A

-- InMemoryMetadataStore
pub record Store : Type 0 where
  pub threads : Dict ThreadRow
  pub runs : Dict RunRow

-- __init__
abbrev pub empty_store : Store
empty_store = record { threads = []; runs = [] }

-- ttl_payload
unfoldable pub ttl_payload : Option ThreadTtlConfig → ℕ → Option TtlPayload
ttl_payload none now = none
ttl_payload (some config) now = elim config.ttl [
  | none ↦ none
  | some minutes ↦ some (record {
    strategy = config.strategy;
    ttl_minutes = minutes;
    expires_at = now + minutes * 60000000;
  })
]

-- new_thread_row
unfoldable pub new_thread_row : ℕ → ℕ → Fields → Fields → Option TtlPayload → ThreadRow
new_thread_row thread_id now metadata config ttl = record {
  thread_id = thread_id;
  created_at = now;
  updated_at = now;
  state_updated_at = none;
  metadata = metadata;
  config = config;
  status = ThreadStatus.idle;
  ttl = ttl;
}

-- new_run_row
unfoldable pub new_run_row : ℕ → ℕ → ℕ → String → Fields → Fields → MultitaskStrategy → RunRow
new_run_row run_id thread_id now assistant_id metadata kwargs multitask_strategy = record {
  run_id = run_id;
  thread_id = thread_id;
  assistant_id = assistant_id;
  created_at = now;
  updated_at = now;
  status = RunStatus.pending;
  metadata = metadata;
  kwargs = kwargs;
  multitask_strategy = multitask_strategy;
  error = none;
}

-- resolve_sort_by; the schema admits whitelisted fields only
unfoldable pub resolve_sort_by : ThreadSearchRequest → SortField
resolve_sort_by request = elim request.sort_by [ none ↦ SortField.updated_at | some f ↦ f ]

unfoldable pub fetch_thread_row : Store → ℕ → Option ThreadRow
fetch_thread_row s thread_id = get s.threads thread_id

unfoldable pub create_thread :
    ℕ
    → Store
    → ℕ
    → Fields
    → Fields
    → Option ThreadTtlConfig
    → ThreadIfExists
    → Result ThreadRow × Store
unfolding new_thread_row ttl_payload
create_thread now s thread_id metadata config ttl if_exists = elim (get s.threads thread_id) [
  | some existing ↦ elim if_exists [
    | ThreadIfExists.do_nothing ↦ (ok existing, s)
    | ThreadIfExists.raise ↦ (err (HttpError.thread_exists thread_id), s)
  ]
  | none ↦
      let row = new_thread_row thread_id now metadata config (ttl_payload ttl now) in
      (ok row, record s { threads = put s.threads thread_id row })
]

-- The optional fields that `update_thread` writes.
pub record ThreadUpdate : Type 0 where
  pub status_value : Option ThreadStatus
  pub config : Option Fields
  pub metadata : Option Fields
  pub mark_state_updated : Bool

-- `value if value is not None else old`
abbrev pub or_else {ℓ} : {A : Type ℓ} → Option A → A → A
or_else none old = old
or_else (some value) old = value

unfoldable pub updated_row : ℕ → ℕ → ThreadUpdate → ThreadRow → ThreadRow
updated_row now now' u row = record row {
  updated_at = now;
  status = or_else u.status_value row.status;
  config = or_else u.config row.config;
  metadata = or_else u.metadata row.metadata;
  state_updated_at = if u.mark_state_updated then some now' else row.state_updated_at;
}

-- `now` and `now'` are the two readings of the clock.
unfoldable pub update_thread : ℕ → ℕ → Store → ℕ → ThreadUpdate → Store
unfolding updated_row
update_thread now now' s thread_id u = elim (get s.threads thread_id) [
  | none ↦ s
  | some row ↦ record s { threads = put s.threads thread_id (updated_row now now' u row) }
]

-- The sort key `(r[sort_by] is not None, r[sort_by])`, as a number: None is 0.
unfoldable pub sort_key : SortField → ThreadRow → ℕ
sort_key SortField.thread_id r = suc r.thread_id
sort_key SortField.status r = suc (thread_rank r.status)
sort_key SortField.created_at r = suc r.created_at
sort_key SortField.updated_at r = suc r.updated_at
sort_key SortField.state_updated_at r = elim r.state_updated_at [ none ↦ zero | some t ↦ suc t ]

-- A filter that is absent, or an empty list of ids, lets every row through.
unfoldable pub id_allowed : Option (List ℕ) → ThreadRow → Bool
id_allowed none r = true
id_allowed (some ids) r = if is_empty ids then true else elem r.thread_id ids

unfoldable pub status_allowed : Option ThreadStatus → ThreadRow → Bool
status_allowed none r = true
status_allowed (some status) r = thread_status_eq r.status status

unfoldable pub search_thread_rows : Store → ThreadSearchRequest → List ThreadRow
unfolding id_allowed status_allowed resolve_sort_by sort_key sort
search_thread_rows s request =
    let rows = keep (id_allowed request.ids) (values s.threads) in
    let rows' = keep (status_allowed request.status) rows in
    let sorted = sort (sort_key (resolve_sort_by request)) (not request.ascending) rows' in
    take request.limit (drop request.offset sorted)

-- The dict comprehension of `delete_thread`.
unfoldable pub runs_outside : ℕ → Dict RunRow → Dict RunRow
runs_outside thread_id [] = []
runs_outside thread_id ((run_id, row) ∷ d) =
    if row.thread_id == thread_id
    then runs_outside thread_id d
    else (run_id, row) ∷ runs_outside thread_id d

unfoldable pub delete_thread : Store → ℕ → Store
delete_thread s thread_id = record {
  threads = remove s.threads thread_id;
  runs = runs_outside thread_id s.runs;
}

unfoldable pub create_run :
    ℕ → Store → ℕ → ℕ → String → Fields → Fields → MultitaskStrategy → RunRow × Store
unfolding new_run_row
create_run now s run_id thread_id assistant_id metadata kwargs multitask_strategy =
    let row = new_run_row run_id thread_id now assistant_id metadata kwargs multitask_strategy in
    (row, record s { runs = put s.runs run_id row })

unfoldable pub update_run_status : ℕ → Store → ℕ → RunStatus → Option String → Bool × Store
update_run_status now s run_id status_value error = elim (get s.runs run_id) [
  | none ↦ (false, s)
  | some row ↦
      if in_flight row.status
      then (
        true,
        record s {
          runs =
              put s.runs run_id
                (record row { status = status_value; updated_at = now; error = error });
        },
      )
      else (false, s)
]

unfoldable pub fetch_run_row : Store → ℕ → ℕ → Option RunRow
fetch_run_row s thread_id run_id = elim (get s.runs run_id) [
  | none ↦ none
  | some row ↦ if row.thread_id == thread_id then some row else none
]

unfoldable pub run_status_allowed : Option RunStatus → RunRow → Bool
run_status_allowed none r = true
run_status_allowed (some status) r = run_status_eq r.status status

unfoldable pub list_run_rows : Store → ℕ → ℕ → ℕ → Option RunStatus → List RunRow
unfolding run_status_allowed sort
list_run_rows s thread_id limit offset status_value =
    let rows = keep (λ r. r.thread_id == thread_id) (values s.runs) in
    let rows' = keep (run_status_allowed status_value) rows in
    take limit (drop offset (sort (λ r. r.created_at) true rows'))

unfoldable pub delete_run : Store → ℕ → ℕ → Store
delete_run s thread_id run_id = elim (get s.runs run_id) [
  | none ↦ s
  | some row ↦ if row.thread_id == thread_id then record s { runs = remove s.runs run_id } else s
]

-- The loop body of `touch_runs`.
unfoldable pub touch_run : ℕ → Dict RunRow → ℕ → Dict RunRow
touch_run now d run_id = elim (get d run_id) [
  | none ↦ d
  | some row ↦ if in_flight row.status then put d run_id (record row { updated_at = now }) else d
]

unfoldable pub touch_all : ℕ → Dict RunRow → List ℕ → Dict RunRow
touch_all now d [] = d
touch_all now d (run_id ∷ run_ids) = touch_all now (touch_run now d run_id) run_ids

unfoldable pub touch_runs : ℕ → Store → List ℕ → Store
unfolding touch_all touch_run
touch_runs now s run_ids = record s { runs = touch_all now s.runs run_ids }

-- The test of `fail_stale_runs`.
unfoldable pub is_stale : ℕ → List ℕ → ℕ → RunRow → Bool
is_stale cutoff excluded run_id row =
    in_flight row.status && ltb row.updated_at cutoff && not (elem run_id excluded)

unfoldable pub failed_row : ℕ → String → RunRow → RunRow
failed_row now error row = record row {
  status = RunStatus.error;
  error = some error;
  updated_at = now;
}

-- The loop of `fail_stale_runs`: the failed rows, and the runs after it.
unfoldable pub fail_loop : ℕ → ℕ → List ℕ → String → Dict RunRow → List RunRow × Dict RunRow
unfolding is_stale failed_row
fail_loop now cutoff excluded error [] = ([], [])
fail_loop now cutoff excluded error ((run_id, row) ∷ d) =
    let (failed, rest) = fail_loop now cutoff excluded error d in
    if is_stale cutoff excluded run_id row
    then (failed_row now error row ∷ failed, (run_id, failed_row now error row) ∷ rest)
    else (failed, (run_id, row) ∷ rest)

-- Times are after the epoch and a difference below it stops there, before every row's time.
unfoldable pub fail_stale_runs : ℕ → Store → ℕ → List ℕ → String → List RunRow × Store
unfolding fail_loop
fail_stale_runs now s stale_after excluded error =
    let (failed, runs) = fail_loop now (now - stale_after) excluded error s.runs in
    (failed, record s { runs = runs })
