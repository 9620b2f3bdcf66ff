-- ===== src/RunOps/Admission.antt =====
-- ops/runs.py: the admission of a background run with its multitask strategy, the cancellation of a run,
-- and the runs that wait. An admission holds its thread's admission lock from the strategy to the
-- spawn, so no other admission on the thread comes between. The run id, a fresh UUID, is an argument.
use skeino.Base.{ℕ, String, Bool, true, false, ◌&&◌, ◌||◌, some, List, [], ◌∷◌, contains}
use skeino.Errors.{HttpError}
use skeino.Json.{Fields}
use skeino.Schemas.{RunStatus, CancelAction, MultitaskStrategy, RunRow, in_flight}
use skeino.Store.{create_run}
use skeino.Concurrency.{cancel, spawn, steps}
use skeino.RunOps.{Exn, Done, World, Op, return_op, raise_op, ◌>>=◌, ◌>>◌, await_op}
use skeino.RunOps.Writes.{write_run_status}
use skeino.RunOps.Requests.{
  RunChecks, validate_run_request, get_run, refuse_unless, delete_run_effect,
}
use skeino.RunOps.Sweeps.{read_active}
use skeino.ThreadOps.{ensure_thread_for_run}

-- The fields of RunCreateRequest that an admission reads, with the dict of `_build_run_kwargs`, and
-- whether the assistant is available.
pub record RunRequest : Type 0 where
  pub checks : RunChecks
  pub assistant_id : String
  pub supported : Bool
  pub metadata : Fields
  pub kwargs : Fields
  pub multitask_strategy : MultitaskStrategy

abbrev pub wait_effect : ℕ → World → Unit {0} × World
wait_effect now w = (tt, record w { registry = steps w.registry (w.tasks_do w.tick) })

-- await asyncio.wait({task}), or await asyncio.shield(completion)
unfoldable pub wait_for_task : Op (Unit {0})
unfolding await_op steps
wait_for_task = await_op wait_effect

-- The end of `cancel`: the waits, if a task was found.
unfoldable pub after_cancel : Bool → Bool → Bool → Op Bool
unfolding wait_for_task
after_cancel false wait completes = return_op false
after_cancel true false completes = return_op true
after_cancel true true false = wait_for_task >> return_op true
after_cancel true true true = wait_for_task >> (wait_for_task >> return_op true)

-- await self._registry.cancel(run_id, wait=wait)
unfoldable pub cancel_task : ℕ → Bool → Op Bool
unfolding cancel after_cancel
cancel_task run_id wait w =
    let completes = contains w.registry.completion run_id in
    let (found, r) = cancel w.registry run_id in
    after_cancel found wait completes (record w { registry = r })

unfoldable pub delete_if : Bool → ℕ → ℕ → Op (Unit {0})
unfolding await_op
delete_if false thread_id run_id = return_op tt
delete_if true thread_id run_id = await_op (delete_run_effect thread_id run_id)

-- The loop over the active runs; with `rollback` each cancelled run is deleted.
unfoldable pub cancel_each : Bool → ℕ → List ℕ → Op (Unit {0})
unfolding cancel_task delete_if
cancel_each rollback thread_id [] = return_op tt
cancel_each rollback thread_id (run_id ∷ run_ids) = do
  cancelled ← cancel_task run_id true
  delete_if (cancelled && rollback) thread_id run_id
  cancel_each rollback thread_id run_ids

unfoldable pub apply_strategy : ℕ → MultitaskStrategy → List ℕ → Op (Unit {0})
unfolding cancel_each
apply_strategy thread_id strategy [] = return_op tt
apply_strategy thread_id MultitaskStrategy.reject (run_id ∷ run_ids) =
    raise_op (Exn.http (HttpError.active_run_rejected thread_id))
apply_strategy thread_id MultitaskStrategy.rollback (run_id ∷ run_ids) =
    cancel_each true thread_id (run_id ∷ run_ids)
apply_strategy thread_id MultitaskStrategy.interrupt (run_id ∷ run_ids) =
    cancel_each false thread_id (run_id ∷ run_ids)
apply_strategy thread_id MultitaskStrategy.enqueue (run_id ∷ run_ids) = return_op tt

unfoldable pub resolve_multitask : ℕ → MultitaskStrategy → Op (Unit {0})
unfolding read_active apply_strategy
resolve_multitask thread_id strategy = do
  active ← read_active thread_id
  apply_strategy thread_id strategy active

-- AssistantOps.ensure_supported
unfoldable pub ensure_supported : Bool → Op (Unit {0})
ensure_supported true = return_op tt
ensure_supported false = raise_op (Exn.http HttpError.assistant_not_found)

abbrev pub create_run_effect : ℕ → ℕ → RunRequest → ℕ → World → RunRow × World
create_run_effect thread_id run_id request now w =
    let (row, s) =
      create_run now w.store run_id thread_id request.assistant_id request.metadata request.kwargs
        request.multitask_strategy in
    (row, record w { store = s })

-- self._registry.spawn(thread_id, run_id, self._run_to_completion(...))
unfoldable pub spawn_run : ℕ → ℕ → RunRow → Op RunRow
unfolding spawn
spawn_run thread_id run_id row w =
    (Done.returns row, record w { registry = (spawn w.registry thread_id run_id false).1 })

-- The block under the admission lock.
unfoldable pub admit : ℕ → ℕ → RunRequest → Op RunRow
unfolding resolve_multitask await_op spawn_run
admit thread_id run_id request = do
  resolve_multitask thread_id request.multitask_strategy
  row ← await_op (create_run_effect thread_id run_id request)
  spawn_run thread_id run_id row

unfoldable pub admit_and_spawn : (ℕ → String) → ℕ → ℕ → RunRequest → Op RunRow
unfolding ensure_thread_for_run ensure_supported validate_run_request admit
admit_and_spawn id_text thread_id run_id request = do
  ensure_thread_for_run id_text thread_id request.checks.if_not_exists
  ensure_supported request.supported
  validate_run_request request.checks
  admit thread_id run_id request

-- What `cancel_run` does once a task was cancelled.
unfoldable pub after_cancelled : ℕ → ℕ → CancelAction → Bool → Op (Unit {0})
unfolding await_op write_run_status
after_cancelled thread_id run_id CancelAction.rollback wait =
    await_op (delete_run_effect thread_id run_id)
after_cancelled thread_id run_id CancelAction.interrupt true = do
  updated ← write_run_status run_id RunStatus.interrupted (some "Run cancelled.")
  return_op tt
after_cancelled thread_id run_id CancelAction.interrupt false = return_op tt

abbrev pub is_rollback : CancelAction → Bool
is_rollback CancelAction.rollback = true
is_rollback CancelAction.interrupt = false

unfoldable pub cancel_run : ℕ → ℕ → CancelAction → Bool → Op (Unit {0})
unfolding get_run refuse_unless cancel_task after_cancelled
cancel_run thread_id run_id action wait = do
  run ← get_run thread_id run_id
  refuse_unless (in_flight run.status) (HttpError.nothing_to_cancel run_id run.status)
  cancelled ← cancel_task run_id (wait || is_rollback action)
  refuse_unless cancelled (HttpError.no_cancellable_task run_id)
  after_cancelled thread_id run_id action wait
