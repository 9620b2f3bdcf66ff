-- ===== src/RunOps/Publishing.antt =====
-- ops/runs.py: `_publish_run`, the body of a streaming run's task, and `finalize_run` with `finish`, the
-- finalizer that `start_producer` spawns it with. The stream is this run's; what subscribers do to it
-- neither publishes nor closes it. Building the input and the config raises nothing, since the request
-- was validated before the run was admitted, and is left out with the tracing context.
use skeino.Base.{
  ℕ, zero, suc, ◌*◌, Bool, true, false, not, ◌&&◌, Option, none, some, List, [], ◌∷◌, ◌++◌, ltb,
  if◌then◌else◌,
}
use Prim.Native.Nat.{◌^◌}
use Prim.Native.String.{String}
use skeino.Json.{Json}
use skeino.Text.{Text, codes}
use skeino.Schemas.{RunStatus, ThreadStatus, RunRow}
use skeino.RunEvents.{TerminalEvent, RunEvent}
use skeino.Sse.Retries.{stream_max_retries, is_retriable_stream_error}
use skeino.RunOps.{Exn, Done, World, Op, return_op, raise_op, ◌>>=◌, ◌>>◌, try_op, await_op}
use skeino.RunOps.Writes.{
  Outcome, write_thread_status, claim_run, finish_run_status, mark_run_failed, mark_run_interrupted,
  settle_thread_after_success,
}
use skeino.RunOps.Execution.{reported_tokens, settle_again}
use skeino.RunOps.Requests.{terminal_event_for_row}

-- stream.publish(...)
unfoldable pub publish_event : RunEvent → Op (Unit {0})
publish_event event w =
    if w.stream_closed
    then (Done.raises (Exn.fault "event stream is already closed"), w)
    else (Done.returns tt, record w { published = w.published ++ event ∷ [] })

-- `except Exception as exc`: the exception is the answer; a cancel still propagates
unfoldable pub catch_exception : Exn → Op (Option Exn)
catch_exception Exn.cancelled = raise_op Exn.cancelled
catch_exception (Exn.http e) = return_op (some (Exn.http e))
catch_exception (Exn.fault text) = return_op (some (Exn.fault text))

unfoldable pub caught : Op (Unit {0}) → Op (Option Exn)
unfolding catch_exception
caught m = try_op (m >> return_op none) catch_exception

-- An await whose call has no effect here: the next chunk, or a sleep.
unfoldable pub pause : Op (Unit {0})
unfolding await_op
pause = await_op λ now w. (tt, w)

-- How an attempt ends: `emitted_data`, and the exception that its `except` clause gets.
abbrev pub Attempted : Type 0
Attempted = Bool × Option Exn

-- `await asyncio.sleep(0)` after a chunk, then the rest of the loop.
unfoldable pub after_publish : Op Attempted → Bool → Option Exn → Op Attempted
unfolding pause caught
after_publish rest emitted (some exc) = return_op (emitted, some exc)
after_publish rest emitted none = do
  slept ← caught pause
  elim slept [ some exc ↦ return_op (true, some exc) | none ↦ rest ]

-- The `async for` loop of one attempt; it ends by the stream's own end or failure.
unfoldable pub stream_chunks : List (Text × Json) → Option Exn → Bool → Op Attempted
unfolding pause caught publish_event after_publish
stream_chunks [] failure emitted = do
  ended ← caught pause
  elim ended [
    | some exc ↦ return_op (emitted, some exc)
    | none ↦ elim failure [
      | none ↦ return_op (emitted, none)
      | some exc ↦ do exc' ← catch_exception exc; return_op (emitted, exc')
    ]
  ]
stream_chunks ((event_name, payload) ∷ chunks) failure emitted = do
  published ← caught (pause >> publish_event (RunEvent.chunk event_name payload))
  after_publish (stream_chunks chunks failure true) emitted published

-- str(exc)
abbrev pub exception_text : World → Exn → String
exception_text w (Exn.http e) = w.http_text e
exception_text w (Exn.fault text) = text
exception_text w Exn.cancelled = ""

-- The `break`, the retry after a backoff of `seconds`, or the `raise`; `left` attempts remain.
unfoldable pub after_attempt : ℕ → ℕ → Op (Unit {0}) → Attempted → Op (Unit {0})
unfolding pause
after_attempt left seconds retry (emitted, none) w = (Done.returns tt, w)
after_attempt left seconds retry (emitted, some exc) w =
    if ltb 0 left && not emitted && is_retriable_stream_error (codes (exception_text w exc))
    then (pause >> retry) w
    else raise_op exc w

-- The loop over the attempts; `emitted_data` is still false whenever an attempt starts.
unfoldable pub attempt_loop : ℕ → ℕ → Op (Unit {0})
unfolding stream_chunks after_attempt
attempt_loop zero attempt w = (Done.returns tt, w)
attempt_loop (suc left) attempt w =
    (stream_chunks (w.attempts attempt).chunks (w.attempts attempt).failure false
        >>= after_attempt left (2 * 2 ^ attempt) (attempt_loop left (suc attempt)))
      w

unfoldable pub publish_outcome : ℕ → Outcome → Op (Unit {0})
unfolding publish_event
publish_outcome run_id outcome w =
    publish_event (RunEvent.terminal (terminal_event_for_row w.deleted_text run_id outcome) none) w

-- The usage handler's tokens, or the fallback.
unfoldable pub streamed_total : ℕ → Op ℕ
unfolding reported_tokens
streamed_total thread_id w = reported_tokens thread_id w.streamed_tokens w

unfoldable pub publish_success : RunRow → Op ℕ
unfolding settle_thread_after_success streamed_total publish_event
publish_success run = do
  settle_thread_after_success run.thread_id
  total ← streamed_total run.thread_id
  publish_event
      (RunEvent.terminal (TerminalEvent.end_event run.run_id RunStatus.success) (some total))
  return_op total

unfoldable pub after_stream : RunRow → Option Outcome → Op ℕ
unfolding publish_outcome publish_success
after_stream run none = publish_success run
after_stream run (some outcome) = publish_outcome run.run_id outcome >> return_op 0

unfoldable pub after_stream_claim : RunRow → Option Outcome → Op ℕ
unfolding publish_outcome write_thread_status publish_event attempt_loop finish_run_status
    after_stream
after_stream_claim run (some outcome) = publish_outcome run.run_id outcome >> return_op 0
after_stream_claim run none = do
  write_thread_status run.thread_id ThreadStatus.busy false
  publish_event (RunEvent.metadata run)
  attempt_loop stream_max_retries 0
  superseded ← finish_run_status run.thread_id run.run_id RunStatus.success none
  after_stream run superseded

unfoldable pub publish_failure : RunRow → String → Option Outcome → Op (Unit {0})
unfolding publish_outcome publish_event
publish_failure run text (some outcome) = publish_outcome run.run_id outcome
publish_failure run text none =
    publish_event (RunEvent.terminal (TerminalEvent.error_event run.run_id text) none)

unfoldable pub failed_stream : RunRow → String → Op ℕ
unfolding mark_run_failed publish_failure
failed_stream run text = do
  superseded ← mark_run_failed run.run_id run.thread_id text
  publish_failure run text superseded
  return_op 0

-- The two `except` clauses.
unfoldable pub handle_stream : RunRow → Exn → Op ℕ
unfolding failed_stream
handle_stream run Exn.cancelled w = (Done.raises Exn.cancelled, w)
handle_stream run (Exn.fault text) w = failed_stream run text w
handle_stream run (Exn.http e) w = failed_stream run (w.http_text e) w

unfoldable pub publish_run : RunRow → Op ℕ
unfolding claim_run after_stream_claim handle_stream
publish_run run =
    try_op (do finalized ← claim_run run.thread_id run.run_id; after_stream_claim run finalized)
      (handle_stream run)

unfoldable pub publish_interruption : RunRow → Option Outcome → Op (Unit {0})
unfolding publish_event publish_outcome settle_again
publish_interruption run none =
    publish_event
      (RunEvent.terminal (TerminalEvent.end_event run.run_id RunStatus.interrupted) none)
publish_interruption run (some outcome) = do
  settle_again run.thread_id (some outcome)
  publish_outcome run.run_id outcome

unfoldable pub interrupted_stream : RunRow → Bool → Op (Unit {0})
unfolding mark_run_interrupted publish_interruption
interrupted_stream run false = return_op tt
interrupted_stream run true = do
  superseded ← mark_run_interrupted run.run_id run.thread_id
  publish_interruption run superseded

-- finish: the lock is released and the stream closed, however the `try` ends
abbrev pub finish : Done (Unit {0}) × World → Done (Unit {0}) × World
finish (d, w) = (d, record w { held = false; stream_closed = true })

-- `task_cancelled` is `task.cancelled()`; without a cleanup `after_run` returns at once.
unfoldable pub finalize_run : RunRow → Bool → Op (Unit {0}) → Op (Unit {0})
unfolding interrupted_stream
finalize_run run task_cancelled after_run w =
    finish ((interrupted_stream run task_cancelled >> after_run) w)

abbrev pub is_cancelled : {A : Type 0} → Done A → Bool
is_cancelled (Done.returns a) = false
is_cancelled (Done.raises (Exn.http e)) = false
is_cancelled (Done.raises (Exn.fault text)) = false
is_cancelled (Done.raises Exn.cancelled) = true

-- The producer's task and then its finalizer. A cancel may come before the task's first step.
unfoldable pub produce : RunRow → Bool → Op (Unit {0}) → Op (Unit {0})
unfolding publish_run finalize_run
produce run started after_run w =
    if started
    then (let (d, w') = publish_run run w in finalize_run run (is_cancelled d) after_run w')
    else finalize_run run true after_run w
