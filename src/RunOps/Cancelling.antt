-- ===== src/RunOps/Cancelling.antt =====
-- ops/runs.py: what a cancellation answers and does to the store.
use skeino.Base.{
  ℕ, ◌≡◌, refl, Bool, true, false, ◌||◌, none, some, List, if◌then◌else◌, contains, Bool-cases,
  Option-cases, inl, inr,
}
use skeino.Errors.{HttpError}
use skeino.Schemas.{RunStatus, CancelAction, in_flight}
use skeino.Store.{Store, fetch_thread_row, fetch_run_row, delete_run, update_run_status}
use skeino.Concurrency.{BackgroundRunRegistry, Step, cancel}
use skeino.RunOps.{Exn, Done, World, await_op, ◌>>=◌, ◌>>◌}
use skeino.RunOps.Writes.{read_run_row, write_run_status}
use skeino.RunOps.Outcomes.{calm_world}
use skeino.RunOps.Requests.{require_row, ensure_exists, read_thread_row, get_run, refuse_unless}
use skeino.RunOps.Admission.{
  is_rollback, wait_for_task, after_cancel, cancel_task, after_cancelled, cancel_run,
}

-- The store after a task was cancelled.
abbrev pub cancelled_store : ℕ → Store → ℕ → ℕ → CancelAction → Bool → Store
cancelled_store now s thread_id run_id CancelAction.rollback wait = delete_run s thread_id run_id
cancelled_store now s thread_id run_id CancelAction.interrupt true =
    (update_run_status now s run_id RunStatus.interrupted (some "Run cancelled.")).1
cancelled_store now s thread_id run_id CancelAction.interrupt false = s

-- The answer to a cancellation, and the store after it, by what the store and the registry hold.
abbrev pub cancellation :
    ℕ → Store → BackgroundRunRegistry → ℕ → ℕ → CancelAction → Bool → Done (Unit {0}) × Store
cancellation now s registry thread_id run_id action wait = elim (fetch_thread_row s thread_id) [
  | none ↦ (Done.raises (Exn.http (HttpError.thread_not_found thread_id)), s)
  | some thread ↦ elim (fetch_run_row s thread_id run_id) [
    | none ↦ (Done.raises (Exn.http (HttpError.run_not_found run_id thread_id)), s)
    | some row ↦
        if in_flight row.status
        then if (cancel registry run_id).0
          then (Done.returns tt, cancelled_store now s thread_id run_id action wait)
          else (Done.raises (Exn.http (HttpError.no_cancellable_task run_id)), s)
        else (Done.raises (Exn.http (HttpError.nothing_to_cancel run_id row.status)), s)
  ]
]

-- What follows once the registry has found the task.
settled :
    (s : Store) (now : ℕ) (registry : BackgroundRunRegistry) (tasks_do : ℕ → List Step)
    (k thread_id run_id : ℕ) (action : CancelAction) (wait completes : Bool)
    → let w : World = record (calm_world s now (Done.returns 0) false) {
      registry = registry;
      tasks_do = tasks_do;
      tick = k;
    } in
      let r =
        (after_cancel true (wait || is_rollback action) completes >>= λ cancelled.
        refuse_unless cancelled (HttpError.no_cancellable_task run_id)
        >> after_cancelled thread_id run_id action wait)
          w in
      (r.0 ≡ Done.returns tt) × (r.1.store ≡ cancelled_store now s thread_id run_id action wait)
unfolding after_cancel wait_for_task refuse_unless after_cancelled write_run_status await_op
settled s now registry tasks_do k t r CancelAction.rollback true true = (refl, refl)
settled s now registry tasks_do k t r CancelAction.rollback true false = (refl, refl)
settled s now registry tasks_do k t r CancelAction.rollback false true = (refl, refl)
settled s now registry tasks_do k t r CancelAction.rollback false false = (refl, refl)
settled s now registry tasks_do k t r CancelAction.interrupt true true = (refl, refl)
settled s now registry tasks_do k t r CancelAction.interrupt true false = (refl, refl)
settled s now registry tasks_do k t r CancelAction.interrupt false completes = (refl, refl)

-- While no call fails and nobody else writes to the store, whatever the tasks do meanwhile: a
-- cancellation is a 404 if the thread or the thread's run is unknown, and a 409 if the run is not in
-- flight or has no task here, and then changes nothing in the store. Otherwise `rollback` deletes exactly
-- that run's row, `interrupt` with `wait` marks it interrupted if it is still in flight, and without
-- leaves the store alone.
pub cancel_run_outcome :
    (s : Store) (now : ℕ) (registry : BackgroundRunRegistry) (tasks_do : ℕ → List Step)
    (thread_id run_id : ℕ) (action : CancelAction) (wait : Bool)
    → let r =
        cancel_run thread_id run_id action wait (record (calm_world s now (Done.returns 0) false) {
          registry = registry;
          tasks_do = tasks_do;
        }) in
      let e = cancellation now s registry thread_id run_id action wait in
      (r.0 ≡ e.0) × (r.1.store ≡ e.1)
unfolding cancel_run cancel_task get_run ensure_exists require_row read_thread_row read_run_row
    refuse_unless await_op after_cancel
cancel_run_outcome s now registry tasks_do t k action wait =
    elim (Option-cases (fetch_thread_row s t)) [
      | inl e ↦ rw (e, cancellation) (refl, refl)
      | inr (thread, e) ↦ elim (Option-cases (fetch_run_row s t k)) [
        | inl f ↦ rw (e, f, cancellation) (refl, refl)
        | inr (row, f) ↦ elim (Bool-cases (in_flight row.status)) [
          | inl g ↦ elim (Bool-cases (cancel registry k).0) [
            | inl c ↦
                rw (e, f, g, c, cancellation)
                  (settled s now (cancel registry k).1 tasks_do 2 t k action wait
                    (contains registry.completion k))
            | inr c ↦ rw (e, f, g, c, cancellation) (refl, refl)
          ]
          | inr g ↦ rw (e, f, g, cancellation) (refl, refl)
        ]
      ]
    ]
