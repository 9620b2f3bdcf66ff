-- ===== src/RunOps/Waiting.antt =====
-- ops/runs.py: the two ways to wait for a run's output, `wait_run` and `join_run`.
use skeino.Base.{ℕ, Bool, true, false, not, Option, none, some, String, get}
use skeino.Errors.{HttpError}
use skeino.Json.{Json}
use skeino.Schemas.{in_flight}
use skeino.RunOps.{Done, Op, return_op, ◌>>=◌, ◌>>◌}
use skeino.RunOps.Requests.{get_run, refuse_unless}
use skeino.RunOps.Admission.{RunRequest, wait_for_task, admit_and_spawn}
use skeino.RunOps.Finals.{Graph, collect_terminal_output}

-- `result` is how the run's task ended.
unfoldable pub wait_run : (ℕ → String) → Graph → (ℕ → Done ℕ) → ℕ → ℕ → RunRequest → Op (Json × ℕ)
unfolding admit_and_spawn wait_for_task collect_terminal_output
wait_run id_text graph result thread_id run_id request = do
  row ← admit_and_spawn id_text thread_id run_id request
  wait_for_task
  collect_terminal_output graph thread_id run_id (some (result run_id))

-- `admitting`: the run is a streaming run that is still being admitted.
unfoldable pub await_admission : Bool → Op (Unit {0})
unfolding wait_for_task
await_admission true = wait_for_task
await_admission false = return_op tt

-- The rest of `join_run`, once the task was looked up.
unfoldable pub join_task : Graph → (ℕ → Done ℕ) → ℕ → ℕ → Option ℕ → Op (Json × ℕ)
unfolding get_run refuse_unless wait_for_task collect_terminal_output
join_task graph result thread_id run_id none = do
  run ← get_run thread_id run_id
  refuse_unless (not (in_flight run.status)) (HttpError.no_joinable_task run_id run.status)
  collect_terminal_output graph thread_id run_id none
join_task graph result thread_id run_id (some task) = do
  wait_for_task
  collect_terminal_output graph thread_id run_id (some (result run_id))

unfoldable pub look_up_task : ℕ → Op (Option ℕ)
look_up_task run_id w = (Done.returns (get w.registry.tasks run_id), w)

-- The output; its tokens are dropped.
unfoldable pub join_run : Graph → (ℕ → Done ℕ) → Bool → ℕ → ℕ → Op Json
unfolding get_run await_admission look_up_task join_task
join_run graph result admitting thread_id run_id = do
  run ← get_run thread_id run_id
  await_admission admitting
  task ← look_up_task run_id
  output ← join_task graph result thread_id run_id task
  return_op output.0
