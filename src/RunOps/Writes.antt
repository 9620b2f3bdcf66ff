-- ===== src/RunOps/Writes.antt =====
-- ops/runs.py: the writes of a run's status and of its thread's, with the outcome they report.
use skeino.Base.{
  ℕ, String, Bool, true, false, not, Option, none, some, [], ◌∷◌, ◌++◌, ◌==◌, if◌then◌else◌, elem,
  keep,
}
use skeino.Schemas.{RunStatus, ThreadStatus, RunRow}
use skeino.Store.{ThreadUpdate, update_run_status, fetch_run_row, update_thread}
use skeino.RunOps.{Exn, Done, World, Op, return_op, raise_op, ◌>>=◌, ◌>>◌, try_op, await_op}

-- _Outcome: the persisted row, or the outcome of a run whose row is gone
pub data Outcome : Type 0 where
  deleted_outcome : ℕ → Outcome
  row_outcome : RunRow → Outcome

abbrev pub outcome_status : Outcome → RunStatus
outcome_status (Outcome.deleted_outcome run_id) = RunStatus.error
outcome_status (Outcome.row_outcome row) = row.status

abbrev pub run_status_effect : ℕ → RunStatus → Option String → ℕ → World → Bool × World
run_status_effect run_id status error now w =
    let (updated, s) = update_run_status now w.store run_id status error in
    (updated, record w { store = s })

-- await self._metadata_store.update_run_status(...)
unfoldable pub write_run_status : ℕ → RunStatus → Option String → Op Bool
unfolding await_op
write_run_status run_id status error = await_op (run_status_effect run_id status error)

abbrev pub run_row_effect : ℕ → ℕ → ℕ → World → Option RunRow × World
run_row_effect thread_id run_id now w = (fetch_run_row w.store thread_id run_id, w)

unfoldable pub read_run_row : ℕ → ℕ → Op (Option RunRow)
unfolding await_op
read_run_row thread_id run_id = await_op (run_row_effect thread_id run_id)

abbrev pub status_update : ThreadStatus → Bool → ThreadUpdate
status_update status mark_state_updated = record {
  status_value = some status;
  config = none;
  metadata = none;
  mark_state_updated = mark_state_updated;
}

abbrev pub thread_status_effect : ℕ → ThreadStatus → Bool → ℕ → World → Unit {0} × World
thread_status_effect thread_id status mark_state_updated now w = (
  tt,
  record w {
    store = update_thread now now w.store thread_id (status_update status mark_state_updated);
  },
)

-- await self._metadata_store.update_thread(thread_id, status_value=..., mark_state_updated=...)
unfoldable pub write_thread_status : ℕ → ThreadStatus → Bool → Op (Unit {0})
unfolding await_op
write_thread_status thread_id status mark_state_updated =
    await_op (thread_status_effect thread_id status mark_state_updated)

abbrev pub outcome_of : ℕ → Option RunRow → Outcome
outcome_of run_id none = Outcome.deleted_outcome run_id
outcome_of run_id (some row) = Outcome.row_outcome row

-- The end of `_claim_run` and of `_finish_run_status`.
unfoldable pub winner : ℕ → ℕ → Bool → Op (Option Outcome)
unfolding read_run_row
winner thread_id run_id true = return_op none
winner thread_id run_id false = do
  row ← read_run_row thread_id run_id
  return_op (some (outcome_of run_id row))

unfoldable pub claim_run : ℕ → ℕ → Op (Option Outcome)
unfolding write_run_status winner
claim_run thread_id run_id = do
  updated ← write_run_status run_id RunStatus.running none
  winner thread_id run_id updated

unfoldable pub finish_run_status : ℕ → ℕ → RunStatus → Option String → Op (Option Outcome)
unfolding write_run_status winner
finish_run_status thread_id run_id status error = do
  updated ← write_run_status run_id status error
  winner thread_id run_id updated

-- `except Exception`: logged, and `a` is the answer; a cancel still propagates
unfoldable pub except_exception : {A : Type 0} → A → Exn → Op A
except_exception a (Exn.http e) = return_op a
except_exception a (Exn.fault text) = return_op a
except_exception a Exn.cancelled = raise_op Exn.cancelled

-- `if superseded is None: await update_thread(...)`, then `return superseded`
unfoldable pub unless_superseded : ℕ → ThreadStatus → Option Outcome → Op (Option Outcome)
unfolding write_thread_status
unless_superseded thread_id status none =
    write_thread_status thread_id status false >> return_op none
unless_superseded thread_id status (some outcome) = return_op (some outcome)

unfoldable pub mark_run_failed : ℕ → ℕ → String → Op (Option Outcome)
unfolding finish_run_status unless_superseded except_exception
mark_run_failed run_id thread_id error =
    try_op
      (do
        superseded ← finish_run_status thread_id run_id RunStatus.error (some error)
        unless_superseded thread_id ThreadStatus.error superseded)
      (except_exception none)

unfoldable pub mark_run_interrupted : ℕ → ℕ → Op (Option Outcome)
unfolding finish_run_status unless_superseded except_exception
mark_run_interrupted run_id thread_id =
    try_op
      (do
        superseded ←
            finish_run_status thread_id run_id RunStatus.interrupted (some "Run interrupted.")
        unless_superseded thread_id ThreadStatus.idle superseded)
      (except_exception none)

unfoldable pub interrupt_row_only : ℕ → Op (Unit {0})
unfolding write_run_status except_exception
interrupt_row_only run_id =
    try_op
      (do
        updated ←
            write_run_status run_id RunStatus.interrupted (some "Run cancelled before it started.")
        return_op tt)
      (except_exception tt)

abbrev pub settled_effect : ℕ → ℕ → World → ThreadStatus × World
settled_effect thread_id now w =
    (if w.interrupts_of thread_id then ThreadStatus.interrupted else ThreadStatus.idle, w)

-- await self._graph.aget_state(...), and the test for pending interrupts
unfoldable pub settled_thread_status : ℕ → Op ThreadStatus
unfolding await_op
settled_thread_status thread_id = await_op (settled_effect thread_id)

abbrev pub note_unsettled : ℕ → Op (Unit {0})
note_unsettled thread_id w = (
  Done.returns tt,
  record w {
    unsettled_threads =
        if elem thread_id w.unsettled_threads
        then w.unsettled_threads
        else w.unsettled_threads ++ thread_id ∷ [];
  },
)

abbrev pub note_settled : ℕ → Op (Unit {0})
note_settled thread_id w = (
  Done.returns tt,
  record w { unsettled_threads = keep (λ t. not (t == thread_id)) w.unsettled_threads },
)

-- The `else` of the `try` is its last statement: nothing there raises.
unfoldable pub settle_thread_after_success : ℕ → Op (Unit {0})
unfolding settled_thread_status write_thread_status except_exception
settle_thread_after_success thread_id = do
  note_unsettled thread_id
  try_op
      (do
        status ← settled_thread_status thread_id
        write_thread_status thread_id status true
        note_settled thread_id)
      (except_exception tt)
