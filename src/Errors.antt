-- ===== src/Errors.antt =====
-- The HTTPExceptions that the operations raise, one constructor for each message, with the ids and
-- statuses that the message quotes.
use skeino.Base.{ℕ, String, Option}
use skeino.Schemas.{RunStatus}

pub data HttpError : Type 0 where
  -- persistence/_common.py
  thread_exists : ℕ → HttpError
  thread_reread : ℕ → HttpError
  -- ops/threads.py
  thread_not_found : ℕ → HttpError
  supersteps_not_supported : HttpError
  -- ops/runs.py
  run_not_found : ℕ → ℕ → HttpError
  nothing_to_cancel : ℕ → RunStatus → HttpError
  no_cancellable_task : ℕ → HttpError
  cancel_before_delete : ℕ → RunStatus → HttpError
  no_joinable_task : ℕ → RunStatus → HttpError
  no_event_stream : ℕ → RunStatus → HttpError
  active_run_rejected : ℕ → HttpError
  superseded : ℕ → HttpError
  ahead_of_stream : ℕ → ℕ → HttpError
  predates_window : ℕ → ℕ → HttpError
  invalid_last_event_id : HttpError
  events_not_combinable : HttpError
  schedules_not_supported : HttpError
  webhooks_not_supported : HttpError
  checkpoint_on_stateless : HttpError
  run_failed : Option String → HttpError
  final_state_unreadable : ℕ → HttpError
  -- ops/assistants.py
  assistant_not_found : HttpError

-- The status code of each.
abbrev pub status_code : HttpError → ℕ
status_code (thread_exists t) = 409
status_code (thread_reread t) = 409
status_code (thread_not_found t) = 404
status_code supersteps_not_supported = 400
status_code (run_not_found t r) = 404
status_code (nothing_to_cancel r s) = 409
status_code (no_cancellable_task r) = 409
status_code (cancel_before_delete r s) = 409
status_code (no_joinable_task r s) = 409
status_code (no_event_stream r s) = 409
status_code (active_run_rejected t) = 409
status_code (superseded r) = 409
status_code (ahead_of_stream r a) = 409
status_code (predates_window r a) = 409
status_code invalid_last_event_id = 422
status_code events_not_combinable = 400
status_code schedules_not_supported = 400
status_code webhooks_not_supported = 400
status_code checkpoint_on_stateless = 400
status_code (run_failed e) = 500
status_code (final_state_unreadable r) = 500
status_code assistant_not_found = 404
