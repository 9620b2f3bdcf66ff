-- ===== src/Examples/Admissions.antt =====
-- The thread 2 with its pending run 9, whose task is tracked; and the same thread left busy.
use skeino.Base.{
  ℕ, ◌≡◌, refl, true, false, some, none, List, [], ◌∷◌, values, arith, keep, ◌&&◌, get,
}
use mathlib.Core.List.{Perm}
use skeino.Json.{Fields}
use skeino.Errors.{HttpError}
use skeino.Schemas.{ThreadStatus, MultitaskStrategy, CancelAction, RunIfNotExists, thread_status_eq}
use skeino.Store.{Store}
use skeino.Concurrency.{BackgroundRunRegistry, Step, new_registry, spawn}
use skeino.RunOps.{Exn, Done, World}
use skeino.RunOps.Outcomes.{calm_world}
use skeino.RunOps.Admission.{RunRequest, admit, cancel_run}
use skeino.RunOps.Admitting.{IsAdmission, admit_reject}
use skeino.RunOps.Cancelling.{cancellation, cancel_run_outcome}
use skeino.RunOps.Stuck.{is_old, thread_ids, collect_stuck}
use skeino.RunOps.Collecting.{collect_stuck_complete}
use skeino.Examples.Runs.{home, one_run}

abbrev tracked : BackgroundRunRegistry
tracked = (spawn new_registry 2 9 true).1

abbrev pub exclusive : RunRequest
exclusive = record {
  checks = record {
    after_seconds = none;
    webhook = none;
    has_checkpoint = false;
    if_not_exists = RunIfNotExists.reject;
  };
  assistant_id = "agent";
  supported = true;
  metadata = Fields.end;
  kwargs = Fields.end;
  multitask_strategy = MultitaskStrategy.reject;
}

abbrev pub with_task : World
with_task = record (calm_world one_run 40 (Done.returns 0) false) { registry = tracked }

-- The thread 2 has an active run, the thread 3 has none.
refused :
    (admit 2 10 exclusive with_task).0 ≡ Done.raises (Exn.http (HttpError.active_run_rejected 2))
unfolding admit skeino.Base.put
refused = refl

admit_reject_example : IsAdmission 3 10 with_task (admit 3 10 exclusive with_task)
admit_reject_example = admit_reject 3 10 exclusive with_task refl

abbrev none_moves : ℕ → List Step
none_moves k = []

cancel_run_outcome_example :
    let r =
      cancel_run 2 9 CancelAction.rollback false
        (record (calm_world one_run 40 (Done.returns 0) false) {
          registry = tracked;
          tasks_do = none_moves;
        }) in
    let e = cancellation 40 one_run tracked 2 9 CancelAction.rollback false in
    (r.0 ≡ e.0) × (r.1.store ≡ e.1)
cancel_run_outcome_example =
    cancel_run_outcome one_run 40 tracked none_moves 2 9 CancelAction.rollback false

rolled_back : get (cancellation 40 one_run tracked 2 9 CancelAction.rollback false).1.runs 9 ≡ none
unfolding spawn skeino.Store.fetch_thread_row skeino.Store.fetch_run_row skeino.Concurrency.cancel
    skeino.Base.put skeino.Store.delete_run skeino.Base.remove
rolled_back = refl

abbrev left_busy : Store
left_busy = record one_run { threads = (2, record home { status = ThreadStatus.busy }) ∷ [] }

collect_stuck_complete_example :
    (ids : List ℕ) × ((collect_stuck 1 30 0 [] (calm_world left_busy 40 (Done.returns 0) false)).0
      ≡ Done.returns (some ids))
    × Perm ids (
        thread_ids (
          keep
            (λ t. thread_status_eq t.status ThreadStatus.busy && is_old 30 t)
            (values left_busy.threads)))
collect_stuck_complete_example =
    collect_stuck_complete left_busy 40 (Done.returns 0) false 30 1 (omega arith)
