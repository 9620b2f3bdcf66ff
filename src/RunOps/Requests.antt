-- ===== src/RunOps/Requests.antt =====
-- ops/runs.py: what a request does before any task is started or awaited: the checks of a payload, the
-- reads of a run, its deletion, and the terminal event of a finalized row. Also the thread checks of
-- ops/threads.py that they begin with.
use skeino.Base.{ℕ, String, Bool, true, false, not, Option, none, some, List, if◌then◌else◌, ltb}
use skeino.Errors.{HttpError}
use skeino.Json.{ℤ, pos, negsuc}
use skeino.Schemas.{RunStatus, RunIfNotExists, RunRow, ThreadRow, in_flight, run_status_eq}
use skeino.Store.{Result, ok, err, fetch_thread_row, list_run_rows, delete_run}
use skeino.RunEvents.{TerminalEvent}
use skeino.RunOps.{Exn, World, Op, return_op, raise_op, ◌>>=◌, ◌>>◌, await_op}
use skeino.RunOps.Writes.{Outcome, read_run_row}

-- The header's value: absent or blank, the number that `int` reads, or anything else.
pub data HeaderValue : Type 0 where
  blank unreadable : HeaderValue
  number : ℤ → HeaderValue

-- `-1`, which replays everything, is the position before 0.
pub data ReplayFrom : Type 0 where
  nothing beginning : ReplayFrom
  after_event : ℕ → ReplayFrom

unfoldable pub parse_last_event_id : HeaderValue → Result ReplayFrom
parse_last_event_id HeaderValue.blank = ok ReplayFrom.nothing
parse_last_event_id HeaderValue.unreadable = err HttpError.invalid_last_event_id
parse_last_event_id (HeaderValue.number (pos n)) = ok (ReplayFrom.after_event n)
parse_last_event_id (HeaderValue.number (negsuc n)) =
    if ltb 0 n then err HttpError.invalid_last_event_id else ok ReplayFrom.beginning

-- The fields of RunCreateRequest that decide whether a request is refused.
pub record RunChecks : Type 0 where
  pub after_seconds : Option ℕ
  pub webhook : Option String
  pub has_checkpoint : Bool
  pub if_not_exists : RunIfNotExists

unfoldable pub validate_run_request : RunChecks → Op (Unit {0})
validate_run_request request = elim request.after_seconds [
  | some t ↦ raise_op (Exn.http HttpError.schedules_not_supported)
  | none ↦ elim request.webhook [
    | some url ↦ raise_op (Exn.http HttpError.webhooks_not_supported)
    | none ↦ return_op tt
  ]
]

unfoldable pub as_stateless : RunChecks → Result RunChecks
as_stateless request =
    if request.has_checkpoint
    then err HttpError.checkpoint_on_stateless
    else ok (record request { if_not_exists = RunIfNotExists.create })

-- `row.get("error") or "Run failed."`
abbrev pub detail_of : Option String → String
detail_of none = "Run failed."
detail_of (some String.[]) = "Run failed."
detail_of (some text) = text

-- The text of a deleted outcome's error quotes the run id.
unfoldable pub terminal_event_for_row : (ℕ → String) → ℕ → Outcome → TerminalEvent
terminal_event_for_row deleted_text run_id (Outcome.deleted_outcome k) =
    TerminalEvent.error_event run_id (deleted_text k)
terminal_event_for_row deleted_text run_id (Outcome.row_outcome row) =
    if run_status_eq row.status RunStatus.error
    then TerminalEvent.error_event run_id (detail_of row.error)
    else TerminalEvent.end_event run_id row.status

abbrev pub thread_row_effect : ℕ → ℕ → World → Option ThreadRow × World
thread_row_effect thread_id now w = (fetch_thread_row w.store thread_id, w)

unfoldable pub read_thread_row : ℕ → Op (Option ThreadRow)
unfolding await_op
read_thread_row thread_id = await_op (thread_row_effect thread_id)

abbrev pub found_or_404 : {A : Type 0} → HttpError → Option A → Op A
found_or_404 e none = raise_op (Exn.http e)
found_or_404 e (some a) = return_op a

unfoldable pub require_row : ℕ → Op ThreadRow
unfolding read_thread_row
require_row thread_id = do
  row ← read_thread_row thread_id
  found_or_404 (HttpError.thread_not_found thread_id) row

unfoldable pub ensure_exists : ℕ → Op (Unit {0})
unfolding require_row
ensure_exists thread_id = do row ← require_row thread_id; return_op tt

unfoldable pub get_run : ℕ → ℕ → Op RunRow
unfolding ensure_exists read_run_row
get_run thread_id run_id = do
  ensure_exists thread_id
  row ← read_run_row thread_id run_id
  found_or_404 (HttpError.run_not_found run_id thread_id) row

unfoldable pub list_runs : ℕ → ℕ → ℕ → Option RunStatus → Op (List RunRow)
unfolding ensure_exists await_op
list_runs thread_id limit offset status = do
  ensure_exists thread_id
  await_op λ now w. (list_run_rows w.store thread_id limit offset status, w)

-- `status not in _TERMINAL_STATUSES`: of the six statuses, the two in flight
unfoldable pub refuse_unless : Bool → HttpError → Op (Unit {0})
refuse_unless true e = return_op tt
refuse_unless false e = raise_op (Exn.http e)

abbrev pub delete_run_effect : ℕ → ℕ → ℕ → World → Unit {0} × World
delete_run_effect thread_id run_id now w =
    (tt, record w { store = delete_run w.store thread_id run_id })

unfoldable pub delete_finished_run : ℕ → ℕ → Op (Unit {0})
unfolding get_run refuse_unless await_op
delete_finished_run thread_id run_id = do
  run ← get_run thread_id run_id
  refuse_unless (not (in_flight run.status)) (HttpError.cancel_before_delete run_id run.status)
  await_op (delete_run_effect thread_id run_id)
