-- ===== src/RunOps/Sweeps.antt =====
-- ops/runs.py: the heartbeat, the sweep of orphaned runs with the release of their threads, and the
-- retry of unsettled threads. The passes run in the event loop beside the runs' tasks.
use skeino.Base.{
  ℕ, String, Bool, true, false, not, Option, none, some, List, [], ◌∷◌, map, if◌then◌else◌,
  is_empty, sort,
}
use skeino.Schemas.{RunStatus, ThreadStatus, RunRow, ThreadRow, thread_status_eq}
use skeino.Store.{fail_stale_runs, touch_runs, list_run_rows}
use skeino.Concurrency.{active_runs, all_active, add, discard}
use skeino.RunOps.{Done, World, Op, return_op, ◌>>=◌, ◌>>◌, try_op, await_op}
use skeino.RunOps.Writes.{
  write_thread_status, settle_thread_after_success, except_exception, note_settled,
}
use skeino.RunOps.Requests.{read_thread_row}

-- self._registry.active_runs(thread_id), with its pruning
unfoldable pub read_active : ℕ → Op (List ℕ)
unfolding active_runs
read_active thread_id w =
    let (ids, r) = active_runs w.registry thread_id in (Done.returns ids, record w { registry = r })

abbrev pub listed_effect : ℕ → RunStatus → ℕ → World → List RunRow × World
listed_effect thread_id status now w = (list_run_rows w.store thread_id 1 0 (some status), w)

unfoldable pub first_with_status : ℕ → RunStatus → Op Bool
unfolding await_op
first_with_status thread_id status = do
  rows ← await_op (listed_effect thread_id status)
  return_op (not (is_empty rows))

-- The loop over the sorted in-flight statuses.
unfoldable pub any_row_in_flight : ℕ → Op Bool
unfolding first_with_status
any_row_in_flight thread_id = do
  pending ← first_with_status thread_id RunStatus.pending
  if pending then return_op true else first_with_status thread_id RunStatus.running

unfoldable pub has_in_flight_runs : ℕ → Op Bool
unfolding read_active any_row_in_flight
has_in_flight_runs thread_id = do
  active ← read_active thread_id
  if is_empty active then any_row_in_flight thread_id else return_op true

abbrev pub busy_thread : Option ThreadRow → Bool
busy_thread none = false
busy_thread (some row) = thread_status_eq row.status ThreadStatus.busy

unfoldable pub release_unless : ℕ → Bool → Op (Unit {0})
unfolding write_thread_status
release_unless thread_id in_flight =
    if in_flight then return_op tt else write_thread_status thread_id ThreadStatus.error false

unfoldable pub release_busy : ℕ → Bool → Op (Unit {0})
unfolding has_in_flight_runs release_unless
release_busy thread_id busy =
    if busy
    then (do in_flight ← has_in_flight_runs thread_id; release_unless thread_id in_flight)
    else return_op tt

unfoldable pub release_orphaned_thread : ℕ → Op (Unit {0})
unfolding read_thread_row release_busy
release_orphaned_thread thread_id = do
  thread ← read_thread_row thread_id
  release_busy thread_id (busy_thread thread)

abbrev pub note_released : ℕ → Op (Unit {0})
note_released thread_id w =
    (Done.returns tt, record w { unreleased_threads = discard thread_id w.unreleased_threads })

-- One round of the release loop: a failure is logged and leaves the thread in the set.
unfoldable pub try_release : ℕ → Op (Unit {0})
unfolding release_orphaned_thread except_exception
try_release thread_id =
    try_op (do release_orphaned_thread thread_id; note_released thread_id) (except_exception tt)

unfoldable pub release_loop : List ℕ → Op (Unit {0})
unfolding try_release
release_loop [] = return_op tt
release_loop (thread_id ∷ thread_ids) = do try_release thread_id; release_loop thread_ids

-- set.update
unfoldable pub add_all : List ℕ → List ℕ → List ℕ
unfolding add
add_all [] xs = xs
add_all (k ∷ ks) xs = add_all ks (add k xs)

abbrev pub note_unreleased : List RunRow → Op (Unit {0})
note_unreleased rows w = (
  Done.returns tt,
  record w { unreleased_threads = add_all (map (λ r. r.thread_id) rows) w.unreleased_threads },
)

abbrev pub release_all_noted : Op (Unit {0})
release_all_noted w = release_loop (sort (λ k. k) false w.unreleased_threads) w

abbrev pub local_runs : World → List ℕ
local_runs w = map (λ p. p.1) (all_active w.registry)

-- The local runs are read before the await.
abbrev pub stale_effect : ℕ → List ℕ → String → ℕ → World → List RunRow × World
stale_effect stale_after local error now w =
    let (rows, s) = fail_stale_runs now w.store stale_after local error in
    (rows, record w { store = s })

-- fail_orphaned_runs, up to the release of stuck threads
unfoldable pub fail_orphaned_runs : ℕ → String → Op (List ℕ)
unfolding await_op release_loop add_all all_active
fail_orphaned_runs stale_after error w =
    (do
      rows ← await_op (stale_effect stale_after (local_runs w) error)
      note_unreleased rows
      release_all_noted
      return_op (map (λ r. r.run_id) rows))
      w

abbrev pub touch_effect : List ℕ → ℕ → World → Unit {0} × World
touch_effect run_ids now w = (tt, record w { store = touch_runs now w.store run_ids })

unfoldable pub heartbeat_runs : Op (Unit {0})
unfolding await_op all_active
heartbeat_runs w =
    if is_empty (local_runs w)
    then (Done.returns tt, w)
    else await_op (touch_effect (local_runs w)) w

-- The test of `_retry_unsettled_threads` for a thread: drop it, leave it for now, or settle it again.
pub data Retry : Type 0 where
  drops leaves settles : Retry

unfoldable pub retry_of : ℕ → Bool → Op Retry
unfolding has_in_flight_runs
retry_of thread_id busy =
    if busy
    then (do
      in_flight ← has_in_flight_runs thread_id
      return_op (if in_flight then Retry.leaves else Retry.settles))
    else return_op Retry.drops

-- A failed check is logged and leaves the thread for now.
unfoldable pub check_retry : ℕ → Op Retry
unfolding read_thread_row retry_of except_exception
check_retry thread_id =
    try_op (do thread ← read_thread_row thread_id; retry_of thread_id (busy_thread thread))
      (except_exception Retry.leaves)

unfoldable pub apply_retry : ℕ → Retry → Op (Unit {0})
unfolding settle_thread_after_success
apply_retry thread_id Retry.drops = note_settled thread_id
apply_retry thread_id Retry.leaves = return_op tt
apply_retry thread_id Retry.settles = settle_thread_after_success thread_id

unfoldable pub retry_loop : List ℕ → Op (Unit {0})
unfolding check_retry apply_retry
retry_loop [] = return_op tt
retry_loop (thread_id ∷ thread_ids) = do
  retry ← check_retry thread_id
  apply_retry thread_id retry
  retry_loop thread_ids

unfoldable pub retry_unsettled_threads : Op (Unit {0})
unfolding retry_loop
retry_unsettled_threads w = retry_loop (sort (λ k. k) false w.unsettled_threads) w
