-- ===== src/RunOps/Execution.antt =====
-- ops/runs.py: `_run_to_completion`, the body of a background run's task. Building the run's input and
-- config, its tracing context and the invocation itself are one awaited call of the graph.
use skeino.Base.{zero, suc, ℕ, true, false, Option, none, some, [], ◌∷◌, ◌++◌, if◌then◌else◌}
use skeino.Schemas.{RunStatus, ThreadStatus, run_status_eq}
use skeino.RunOps.{Exn, Done, World, Op, return_op, raise_op, ◌>>=◌, ◌>>◌, try_op, await_op}
use skeino.RunOps.Writes.{
  Outcome, outcome_status, write_thread_status, claim_run, finish_run_status, mark_run_failed,
  mark_run_interrupted, interrupt_row_only, settle_thread_after_success, except_exception,
}

abbrev pub locked : Done (Unit {0}) × World → Done (Unit {0}) × World
locked (Done.returns a, w) = (Done.returns a, record w { held = true })
locked (Done.raises e, w) = (Done.raises e, w)

-- await lock.acquire(): once it returns, this task holds the lock
unfoldable pub acquire_lock : Op (Unit {0})
unfolding await_op
acquire_lock w = locked (await_op (λ now w. (tt, w)) w)

-- lock.release()
abbrev pub release_lock : {A : Type 0} → Done A × World → Done A × World
release_lock (d, w) = (d, record w { held = false })

-- The invocation ends as the graph ends it, unless the await is cancelled or fails.
unfoldable pub execute_graph_run : ℕ → Op ℕ
unfolding await_op
execute_graph_run run_id = do
  outcome ← await_op λ now w. (w.ainvoke run_id, record w { invoked = w.invoked ++ run_id ∷ [] })
  λ w. (outcome, w)

-- _total_run_tokens: a failed read reports 0
unfoldable pub total_run_tokens : ℕ → Op ℕ
unfolding await_op except_exception
total_run_tokens thread_id =
    try_op (await_op λ now w. (w.tokens_of thread_id, w)) (except_exception 0)

-- After the settling: the usage handler's tokens, or the fallback.
unfoldable pub reported_tokens : ℕ → ℕ → Op ℕ
unfolding total_run_tokens
reported_tokens thread_id zero = total_run_tokens thread_id
reported_tokens thread_id (suc used) = return_op (suc used)

unfoldable pub after_finish : ℕ → ℕ → Option Outcome → Op ℕ
unfolding settle_thread_after_success reported_tokens
after_finish thread_id used (some outcome) = return_op 0
after_finish thread_id used none = do
  settle_thread_after_success thread_id
  reported_tokens thread_id used

unfoldable pub after_claim : ℕ → ℕ → Option Outcome → Op ℕ
unfolding write_thread_status execute_graph_run finish_run_status after_finish
after_claim run_id thread_id (some outcome) = return_op 0
after_claim run_id thread_id none = do
  write_thread_status thread_id ThreadStatus.busy false
  used ← execute_graph_run run_id
  superseded ← finish_run_status thread_id run_id RunStatus.success none
  after_finish thread_id used superseded

-- `superseded is not None and superseded["status"] == "success"`
unfoldable pub settle_again : ℕ → Option Outcome → Op (Unit {0})
unfolding settle_thread_after_success
settle_again thread_id none = return_op tt
settle_again thread_id (some outcome) =
    if run_status_eq (outcome_status outcome) RunStatus.success
    then settle_thread_after_success thread_id
    else return_op tt

-- The two `except` clauses of the execution.
unfoldable pub handle_execution : ℕ → ℕ → Exn → Op ℕ
unfolding mark_run_interrupted settle_again mark_run_failed
handle_execution run_id thread_id Exn.cancelled w =
    (do
      superseded ← mark_run_interrupted run_id thread_id
      settle_again thread_id superseded
      raise_op Exn.cancelled)
      w
handle_execution run_id thread_id (Exn.fault text) w =
    (do superseded ← mark_run_failed run_id thread_id text; return_op 0) w
handle_execution run_id thread_id (Exn.http e) w =
    (do superseded ← mark_run_failed run_id thread_id (w.http_text e); return_op 0) w

-- The second `try` without its `finally`.
unfoldable pub execute : ℕ → ℕ → Op ℕ
unfolding claim_run after_claim handle_execution
execute run_id thread_id =
    try_op (do finalized ← claim_run thread_id run_id; after_claim run_id thread_id finalized)
      (handle_execution run_id thread_id)

-- A wait for the lock that fails otherwise than by a cancel raises as it is.
unfoldable pub cancelled_in_queue : ℕ → Exn → Op ℕ
unfolding interrupt_row_only
cancelled_in_queue run_id Exn.cancelled = do interrupt_row_only run_id; raise_op Exn.cancelled
cancelled_in_queue run_id (Exn.fault text) = raise_op (Exn.fault text)
cancelled_in_queue run_id (Exn.http e) = raise_op (Exn.http e)

-- What follows the wait for the lock.
unfoldable pub once_acquired : ℕ → ℕ → Done (Unit {0}) × World → Done ℕ × World
unfolding execute cancelled_in_queue
once_acquired run_id thread_id (Done.raises e, w) = cancelled_in_queue run_id e w
once_acquired run_id thread_id (Done.returns a, w) = release_lock (execute run_id thread_id w)

unfoldable pub run_to_completion : ℕ → ℕ → Op ℕ
unfolding acquire_lock once_acquired
run_to_completion run_id thread_id w = once_acquired run_id thread_id (acquire_lock w)
