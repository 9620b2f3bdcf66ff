-- ===== src/RunOps/Answers.antt =====
-- ops/runs.py: what the requests on a stored run answer, and when a thread is left alone.
use skeino.Base.{
  ℕ, suc, ◌≡◌, refl, Bool, true, false, none, some, if◌then◌else◌, is_empty, Bool-cases,
  Option-cases, inl, inr,
}
use skeino.Errors.{HttpError}
use skeino.Schemas.{in_flight}
use skeino.Store.{Store, fetch_thread_row, fetch_run_row, delete_run}
use skeino.Concurrency.{active_runs}
use skeino.RunOps.{Exn, Done, Fate, World, await_op, awaited, continue_with}
use skeino.RunOps.Writes.{read_run_row}
use skeino.RunOps.Outcomes.{calm_world}
use skeino.RunOps.Requests.{
  require_row, ensure_exists, read_thread_row, thread_row_effect, get_run, refuse_unless,
  delete_finished_run,
}
use skeino.RunOps.Sweeps.{
  read_active, has_in_flight_runs, release_unless, release_busy, release_orphaned_thread,
  busy_thread,
}

-- The answer to a deletion, and the store after it, by what the store holds.
abbrev pub deletion : Store → ℕ → ℕ → Done (Unit {0}) × Store
deletion s thread_id run_id = elim (fetch_thread_row s thread_id) [
  | none ↦ (Done.raises (Exn.http (HttpError.thread_not_found thread_id)), s)
  | some thread ↦ elim (fetch_run_row s thread_id run_id) [
    | none ↦ (Done.raises (Exn.http (HttpError.run_not_found run_id thread_id)), s)
    | some row ↦
        if in_flight row.status
        then (Done.raises (Exn.http (HttpError.cancel_before_delete run_id row.status)), s)
        else (Done.returns tt, delete_run s thread_id run_id)
  ]
]

-- While nothing interferes, deleting a run is a 404 if the thread or the thread's run is unknown, a
-- 409 that changes nothing if the run is in flight, and else removes exactly that run's row.
pub delete_finished_run_outcome :
    (s : Store) (now : ℕ) (outcome : Done ℕ) (parked : Bool) (thread_id run_id : ℕ)
    → let r = delete_finished_run thread_id run_id (calm_world s now outcome parked) in
      (r.0 ≡ (deletion s thread_id run_id).0) × (r.1.store ≡ (deletion s thread_id run_id).1)
unfolding delete_finished_run get_run ensure_exists require_row read_thread_row read_run_row
    refuse_unless await_op
delete_finished_run_outcome s now outcome parked t k = elim (Option-cases (fetch_thread_row s t)) [
  | inl e ↦ rw (e, deletion) (refl, refl)
  | inr (thread, e) ↦ elim (Option-cases (fetch_run_row s t k)) [
    | inl f ↦ rw (e, f, deletion) (refl, refl)
    | inr (row, f) ↦ elim (Bool-cases (in_flight row.status)) [
      | inl g ↦ rw (e, f, g, deletion) (refl, refl)
      | inr g ↦ rw (e, f, g, deletion) (refl, refl)
    ]
  ]
]

release_busy_active :
    (thread_id : ℕ) (busy : Bool) (w : World)
    → is_empty (active_runs w.registry thread_id).0 ≡ false
    → (release_busy thread_id busy w).1.store ≡ w.store
unfolding release_busy has_in_flight_runs read_active release_unless
release_busy_active thread_id false w h = refl
release_busy_active thread_id true w h = rw h refl

release_active :
    (thread_id : ℕ) (fate : Fate) (now : ℕ) (f : Store → Store) (w : World)
    → is_empty (active_runs w.registry thread_id).0 ≡ false
    → (continue_with
        (λ thread. release_busy thread_id (busy_thread thread))
        (awaited
          (thread_row_effect thread_id)
          (record { now = now; meanwhile = f; fate = fate })
          w)).1.store
      ≡ w.store
release_active thread_id Fate.clear now f w h =
    release_busy_active thread_id (busy_thread (fetch_thread_row w.store thread_id)) w h
release_active thread_id (Fate.lost e) now f w h = refl
release_active thread_id (Fate.struck e) now f w h = refl

-- The sweep leaves a thread alone while this process has an active run on it: releasing the thread
-- writes nothing to the store that its read of the thread found, whatever that read comes to.
pub release_orphaned_thread_active :
    (thread_id : ℕ) (w : World)
    → is_empty (active_runs w.registry thread_id).0 ≡ false
    → (release_orphaned_thread thread_id w).1.store ≡ (w.moments w.tick).meanwhile w.store
unfolding release_orphaned_thread read_thread_row await_op
release_orphaned_thread_active thread_id w h =
    let m = w.moments w.tick in
    release_active thread_id m.fate m.now m.meanwhile
      (record w { store = m.meanwhile w.store; tick = suc w.tick }) h
