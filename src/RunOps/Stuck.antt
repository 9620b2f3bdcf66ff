-- ===== src/RunOps/Stuck.antt =====
-- ops/runs.py: `_release_stuck_threads`, and the passes that end in it. The loop over the pages has fuel;
-- `none` means that it ran out. The clock is read once, before the first page.
use skeino.Base.{
  ℕ, zero, suc, ◌+◌, ◌-◌, String, Bool, true, false, Option, none, some, List, [], ◌∷◌, ◌++◌, map,
  ltb, if◌then◌else◌, keep, length,
}
use skeino.Schemas.{
  RunStatus, ThreadStatus, ThreadRow, SortField, ThreadSearchRequest, run_status_eq,
}
use skeino.Store.{search_thread_rows, list_run_rows}
use skeino.RunOps.{Done, Op, return_op, ◌>>=◌, ◌>>◌, try_op, await_op}
use skeino.RunOps.Writes.{write_thread_status, settled_thread_status, except_exception}
use skeino.RunOps.Sweeps.{
  has_in_flight_runs, fail_orphaned_runs, heartbeat_runs, retry_unsettled_threads,
}

abbrev pub page_size : ℕ
page_size = 100

-- The request for the busy threads from an offset on, oldest first.
abbrev pub busy_request : ℕ → ThreadSearchRequest
busy_request offset = record {
  ids = none;
  metadata = none;
  values = none;
  status = some ThreadStatus.busy;
  limit = page_size;
  offset = offset;
  sort_by = some SortField.updated_at;
  ascending = true;
}

abbrev pub is_old : ℕ → ThreadRow → Bool
is_old cutoff thread = ltb thread.updated_at cutoff

abbrev pub thread_ids : List ThreadRow → List ℕ
thread_ids = map (λ t. t.thread_id)

-- The end of a round: `stale` are the page's old threads, `busy` the ids so far, with theirs.
unfoldable pub after_page : Op (Option (List ℕ)) → List ThreadRow → List ℕ → Op (Option (List ℕ))
after_page rest stale busy w =
    if ltb (length stale) page_size then (Done.returns (some busy), w) else rest w

unfoldable pub collect_stuck : ℕ → ℕ → ℕ → List ℕ → Op (Option (List ℕ))
unfolding await_op after_page
collect_stuck zero cutoff offset busy = return_op none
collect_stuck (suc fuel) cutoff offset busy = do
  page ← await_op λ now w. (search_thread_rows w.store (busy_request offset), w)
  let stale = keep (is_old cutoff) page
  let busy' = busy ++ thread_ids stale
  after_page (collect_stuck fuel cutoff (offset + page_size) busy') stale busy'

-- The status of the latest run, if there is one.
unfoldable pub latest_outcome : ℕ → Op (Option RunStatus)
unfolding await_op
latest_outcome thread_id = await_op λ now w. (
  elim (list_run_rows w.store thread_id 1 0 none) [ [] ↦ none | row ∷ rows ↦ some row.status ],
  w,
)

abbrev pub was : RunStatus → Option RunStatus → Bool
was status none = false
was status (some outcome) = run_status_eq outcome status

unfoldable pub settled_as : ℕ → Option RunStatus → Op ThreadStatus
unfolding settled_thread_status
settled_as thread_id outcome =
    if was RunStatus.success outcome
    then settled_thread_status thread_id
    else if was RunStatus.interrupted outcome
    then return_op ThreadStatus.idle
    else return_op ThreadStatus.error

unfoldable pub settle_stuck : ℕ → Bool → Op (Unit {0})
unfolding latest_outcome settled_as write_thread_status
settle_stuck thread_id true = return_op tt
settle_stuck thread_id false = do
  outcome ← latest_outcome thread_id
  settled ← settled_as thread_id outcome
  write_thread_status thread_id settled (was RunStatus.success outcome)

-- One round of the release loop: a failure is logged, and the next pass finds the thread again.
unfoldable pub try_settle_stuck : ℕ → Op (Unit {0})
unfolding has_in_flight_runs settle_stuck except_exception
try_settle_stuck thread_id =
    try_op (do in_flight ← has_in_flight_runs thread_id; settle_stuck thread_id in_flight)
      (except_exception tt)

unfoldable pub settle_all_stuck : List ℕ → Op (Unit {0})
unfolding try_settle_stuck
settle_all_stuck [] = return_op tt
settle_all_stuck (thread_id ∷ thread_ids) = do
  try_settle_stuck thread_id
  settle_all_stuck thread_ids

unfoldable pub settle_collected : Option (List ℕ) → Op (Unit {0})
unfolding settle_all_stuck
settle_collected none = return_op tt
settle_collected (some busy) = settle_all_stuck busy

unfoldable pub release_stuck_threads : ℕ → ℕ → ℕ → Op (Unit {0})
unfolding collect_stuck settle_collected
release_stuck_threads fuel now stale_after = do
  busy ← collect_stuck fuel (now - stale_after) 0 []
  settle_collected busy

-- fail_orphaned_runs with its last call; `now` is the clock when that call starts
unfoldable pub sweep_orphans : ℕ → ℕ → ℕ → String → Op (List ℕ)
unfolding fail_orphaned_runs release_stuck_threads
sweep_orphans fuel now stale_after error = do
  failed ← fail_orphaned_runs stale_after error
  release_stuck_threads fuel now stale_after
  return_op failed

-- A failed pass is logged; a cancel still propagates.
unfoldable pub heartbeat_pass : Op (Unit {0})
unfolding heartbeat_runs except_exception
heartbeat_pass = try_op heartbeat_runs (except_exception tt)

unfoldable pub sweep_if : ℕ → ℕ → Option ℕ → String → Op (Unit {0})
unfolding sweep_orphans
sweep_if fuel now none error = return_op tt
sweep_if fuel now (some stale_after) error =
    sweep_orphans fuel now stale_after error >>= λ _. return_op tt

unfoldable pub sweep_pass : ℕ → ℕ → Option ℕ → String → Op (Unit {0})
unfolding retry_unsettled_threads sweep_if except_exception
sweep_pass fuel now stale_after error =
    try_op (retry_unsettled_threads >> sweep_if fuel now stale_after error) (except_exception tt)

unfoldable pub liveness_pass : ℕ → ℕ → Option ℕ → String → Op (Unit {0})
unfolding heartbeat_pass sweep_pass
liveness_pass fuel now stale_after error = heartbeat_pass >> sweep_pass fuel now stale_after error
