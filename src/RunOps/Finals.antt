-- ===== src/RunOps/Finals.antt =====
-- ops/runs.py: the output of a finished run, for those who waited for it or joined it. Reading the graph's
-- state is an awaited call, which may fail or be cancelled.
use skeino.Base.{ℕ, Bool, true, false, Option, none, some, List, if◌then◌else◌}
use skeino.Errors.{HttpError}
use skeino.Json.{Json}
use skeino.Schemas.{RunStatus, RunRow, run_status_eq}
use skeino.Text.{Text}
use skeino.Outputs.{Snapshot, output_with_interrupts, filter_values}
use skeino.RunOps.{Exn, Done, Op, return_op, raise_op, ◌>>=◌, try_op, await_op}
use skeino.RunOps.Writes.{read_run_row, except_exception}

-- The compiled graph: the newest snapshot of a run on a thread, if the graph has `aget_state_history`; the
-- newest snapshot of a thread; the output keys. Each read answers at a time, or raises.
pub record Graph : Type 0 where
  pub history : Option (ℕ → ℕ → ℕ → Done (Option Snapshot))
  pub state : ℕ → ℕ → Done Snapshot
  pub output_keys : Option (List Text)

abbrev pub settle : {A : Type 0} → Done A → Op A
settle (Done.returns a) = return_op a
settle (Done.raises e) = raise_op e

-- An awaited read of the graph.
unfoldable pub ask : {A : Type 0} → (ℕ → Done A) → Op A
unfolding await_op
ask read = await_op (λ now w. (read now, w)) >>= settle

-- `except Exception`: raised again with `raise_on_error`, else logged, and `a` is the answer
unfoldable pub tolerate : {A : Type 0} → Bool → A → Exn → Op A
unfolding except_exception
tolerate true a e = raise_op e
tolerate false a e = except_exception a e

abbrev pub output_of : Option Snapshot → Option Json
output_of none = none
output_of (some snapshot) = some (output_with_interrupts snapshot)

-- The read of the run's own checkpoint.
unfoldable pub read_history :
    Option (ℕ → ℕ → ℕ → Done (Option Snapshot)) → ℕ → ℕ → Bool → Op (Option Json)
unfolding ask tolerate output_with_interrupts
read_history none thread_id run_id raise_on_error = return_op none
read_history (some get_history) thread_id run_id raise_on_error =
    try_op (ask (λ now. get_history now thread_id run_id) >>= λ found. return_op (output_of found))
      (tolerate raise_on_error none)

-- The read of the thread's latest state.
unfoldable pub latest : Graph → ℕ → Bool → Op Json
unfolding ask tolerate output_with_interrupts
latest graph thread_id raise_on_error =
    try_op
      (ask (λ now. graph.state now thread_id) >>= λ snapshot.
        return_op (output_with_interrupts snapshot))
      (tolerate raise_on_error Json.null)

unfoldable pub or_latest : Op Json → Option Json → Op Json
or_latest fallback none = fallback
or_latest fallback (some output) = return_op output

unfoldable pub final_state_values : Graph → ℕ → ℕ → Bool → Op Json
unfolding read_history latest or_latest
final_state_values graph thread_id run_id raise_on_error =
    read_history graph.history thread_id run_id raise_on_error
    >>= or_latest (latest graph thread_id raise_on_error)

-- `task.result()`, of a task that was not cancelled; no task counts no tokens
unfoldable pub tokens_of_task : Option (Done ℕ) → Op ℕ
tokens_of_task none = return_op 0
tokens_of_task (some (Done.returns tokens)) = return_op tokens
tokens_of_task (some (Done.raises (Exn.http e))) = raise_op (Exn.http e)
tokens_of_task (some (Done.raises (Exn.fault text))) = raise_op (Exn.fault text)
tokens_of_task (some (Done.raises Exn.cancelled)) = return_op 0

unfoldable pub filtered_output : Option (List Text) → Json → Json
unfolding filter_values
filtered_output output_keys (Json.obj fields) = Json.obj (filter_values output_keys fields)
filtered_output output_keys Json.null = Json.null
filtered_output output_keys (Json.bool b) = Json.bool b
filtered_output output_keys (Json.int n) = Json.int n
filtered_output output_keys (Json.float text) = Json.float text
filtered_output output_keys (Json.str text) = Json.str text
filtered_output output_keys (Json.arr items) = Json.arr items

-- `except Exception`: refused as unreadable; a cancel still propagates
unfoldable pub unreadable : {A : Type 0} → ℕ → Exn → Op A
unreadable run_id (Exn.http e) = raise_op (Exn.http (HttpError.final_state_unreadable run_id))
unreadable run_id (Exn.fault text) = raise_op (Exn.http (HttpError.final_state_unreadable run_id))
unreadable run_id Exn.cancelled = raise_op Exn.cancelled

unfoldable pub collect_from : Graph → ℕ → ℕ → Option (Done ℕ) → Option RunRow → Op (Json × ℕ)
unfolding final_state_values tokens_of_task filtered_output unreadable
collect_from graph thread_id run_id task none =
    raise_op (Exn.http (HttpError.run_not_found run_id thread_id))
collect_from graph thread_id run_id task (some final) =
    if run_status_eq final.status RunStatus.error
    then raise_op (Exn.http (HttpError.run_failed final.error))
    else (do
      tokens ← tokens_of_task task
      output ← try_op (final_state_values graph thread_id run_id true) (unreadable run_id)
      return_op (filtered_output graph.output_keys output, tokens))

unfoldable pub collect_terminal_output : Graph → ℕ → ℕ → Option (Done ℕ) → Op (Json × ℕ)
unfolding read_run_row collect_from
collect_terminal_output graph thread_id run_id task = do
  final ← read_run_row thread_id run_id
  collect_from graph thread_id run_id task final
