-- ===== src/RunOps/Outcomes.antt =====
-- ops/runs.py: a world in which nothing interferes, and what a background run is to leave when none of its
-- awaits fails.
use skeino.Base.{
  zero, suc, ℕ, String, Bool, true, false, ◌≡◌, refl, Option, none, some, [], if◌then◌else◌, get,
  put,
}
use skeino.Errors.{HttpError}
use skeino.Schemas.{RunStatus, in_flight, RunRow, ThreadStatus, ThreadRow}
use skeino.Store.{Store, update_thread, updated_row, update_run_status}
use skeino.Concurrency.{new_registry}
use skeino.RunOps.{Exn, Done, Fate, Moment, World}
use skeino.RunOps.Writes.{status_update}

abbrev calm : ℕ → Moment
calm now = record { now = now; meanwhile = λ s. s; fate = Fate.clear }

abbrev pub calm_world : Store → ℕ → Done ℕ → Bool → World
calm_world s now outcome parked = record {
  store = s;
  held = false;
  invoked = [];
  unsettled_threads = [];
  unreleased_threads = [];
  registry = new_registry;
  deleted_checkpoints = [];
  ainvoke = λ run_id. outcome;
  interrupts_of = λ thread_id. parked;
  tokens_of = λ thread_id. 0;
  http_text = λ e. "";
  deleted_text = λ k. "";
  published = [];
  stream_closed = false;
  attempts = λ k. record { chunks = []; failure = none };
  streamed_tokens = 0;
  tasks_do = λ k. [];
  moments = λ k. calm now;
  tick = 0;
}

abbrev pub with_status : Store → ℕ → ℕ → RunRow → RunStatus → Option String → Store
with_status s now run_id row status error = record s {
  runs = put s.runs run_id (record row { status = status; updated_at = now; error = error });
}

abbrev pub with_thread : Store → ℕ → ℕ → ThreadRow → ThreadStatus → Bool → Store
with_thread s now thread_id row status mark = record s {
  threads = put s.threads thread_id (updated_row now now (status_update status mark) row);
}

pub write_found :
    (s : Store) (now run_id : ℕ) (row : RunRow) (status : RunStatus) (error : Option String)
    → get s.runs run_id ≡ some row
    → in_flight row.status ≡ true
    → update_run_status now s run_id status error
      ≡ (true, with_status s now run_id row status error)
unfolding update_run_status
write_found s now run_id row status error e f = rw (e, f, update_run_status) refl

pub thread_found :
    (s : Store) (now thread_id : ℕ) (row : ThreadRow) (status : ThreadStatus) (mark : Bool)
    → get s.threads thread_id ≡ some row
    → update_thread now now s thread_id (status_update status mark)
      ≡ with_thread s now thread_id row status mark
unfolding update_thread
thread_found s now thread_id row status mark e = rw (e, update_thread) refl

-- A run whose usage handler counted no tokens reports those of the thread's messages.
abbrev pub counted : ℕ → ℕ → ℕ
counted zero tokens = tokens
counted (suc used) tokens = suc used

-- What the task returns or raises, and how it leaves the run's row and the thread's, by what the
-- graph's invocation comes to.
abbrev pub expected_done : ℕ → Done ℕ → Done ℕ
expected_done tokens (Done.returns used) = Done.returns (counted used tokens)
expected_done tokens (Done.raises (Exn.http e)) = Done.returns 0
expected_done tokens (Done.raises (Exn.fault text)) = Done.returns 0
expected_done tokens (Done.raises Exn.cancelled) = Done.raises Exn.cancelled

abbrev pub expected_run : (HttpError → String) → ℕ → Done ℕ → RunRow → RunRow
expected_run http_text now (Done.returns used) row = record row {
  status = RunStatus.success;
  updated_at = now;
  error = none;
}
expected_run http_text now (Done.raises (Exn.http e)) row = record row {
  status = RunStatus.error;
  updated_at = now;
  error = some (http_text e);
}
expected_run http_text now (Done.raises (Exn.fault text)) row = record row {
  status = RunStatus.error;
  updated_at = now;
  error = some text;
}
expected_run http_text now (Done.raises Exn.cancelled) row = record row {
  status = RunStatus.interrupted;
  updated_at = now;
  error = some "Run interrupted.";
}

abbrev pub expected_thread : ℕ → Done ℕ → Bool → ThreadRow → ThreadRow
expected_thread now (Done.returns used) parked row = record row {
  status = if parked then ThreadStatus.interrupted else ThreadStatus.idle;
  updated_at = now;
  state_updated_at = some now;
}
expected_thread now (Done.raises (Exn.http e)) parked row = record row {
  status = ThreadStatus.error;
  updated_at = now;
}
expected_thread now (Done.raises (Exn.fault text)) parked row = record row {
  status = ThreadStatus.error;
  updated_at = now;
}
expected_thread now (Done.raises Exn.cancelled) parked row = record row {
  status = ThreadStatus.idle;
  updated_at = now;
}
