-- ===== src/RunOps/Claim.antt =====
-- ops/runs.py: what holds of a background run's task whatever happens at its awaits: it gives the lock
-- back, and the graph runs only for a claimed run.
use skeino.Base.{
  ℕ, suc, String, Bool, true, false, ◌≡◌, refl, ◌∙◌, Option, none, some, get, Option-cases, inl,
  inr,
}
use skeino.Schemas.{RunStatus, in_flight, RunRow}
use skeino.Store.{Store, update_run_status}
use skeino.RunOps.{Done, Fate, World, return_op, await_op, continue_with, awaited}
use skeino.RunOps.Writes.{
  outcome_of, write_run_status, read_run_row, winner, claim_run, run_status_effect, run_row_effect,
}
use skeino.RunOps.Execution.{
  acquire_lock, after_claim, handle_execution, execute, once_acquired, run_to_completion, locked,
}
use skeino.RunOps.Frame.{
  handle-quiet, handle_execution-IsQuiet, cancelled_in_queue-IsQuiet, await-IsQuiet,
}

releases :
    (run_id thread_id : ℕ) (fate : Fate) (now : ℕ) (f : Store → Store) (w : World)
    → w.held ≡ false
    → (once_acquired run_id thread_id (
        locked (
          awaited {A = Unit {0}}
            (λ now w. (tt, w))
            (record { now = now; meanwhile = f; fate = fate })
            w))).1.held
      ≡ false
unfolding once_acquired
releases run_id thread_id Fate.clear now f w h = refl
releases run_id thread_id (Fate.lost e) now f w h = (cancelled_in_queue-IsQuiet run_id e w).1 ∙ h
releases run_id thread_id (Fate.struck e) now f w h = (cancelled_in_queue-IsQuiet run_id e w).1 ∙ h

-- A background run that starts without the execution lock ends without it, whether it is claimed or
-- not, and whichever of its awaits raises or is cancelled, the wait for the lock included.
pub run_to_completion_releases :
    (run_id thread_id : ℕ) (w : World)
    → w.held ≡ false
    → (run_to_completion run_id thread_id w).1.held ≡ false
unfolding run_to_completion acquire_lock await_op
run_to_completion_releases run_id thread_id w h =
    let m = w.moments w.tick in releases run_id thread_id m.fate m.now m.meanwhile _ h

abbrev pub claimable : Store → ℕ → Bool
claimable s run_id = elim (get s.runs run_id) [ none ↦ false | some row ↦ in_flight row.status ]

update_run_status_lost :
    (now : ℕ) (s : Store) (run_id : ℕ) (status : RunStatus) (error : Option String)
    → claimable s run_id ≡ false
    → update_run_status now s run_id status error ≡ (false, s)
unfolding update_run_status
update_run_status_lost now s run_id status error h = elim (Option-cases (get s.runs run_id)) [
  | inl e ↦ rw (e, update_run_status) refl
  | inr (row, e) ↦
      let h' : in_flight row.status ≡ false = rw (e, claimable) at h in
      rw (e, h', update_run_status) refl
]

module _ (run_id thread_id : ℕ) where
  after_lost :
      (r : Done (Option RunRow) × World)
      → (continue_with
          (after_claim run_id thread_id)
          (continue_with (λ row. return_op (some (outcome_of run_id row))) r)).1.invoked
        ≡ r.1.invoked
  unfolding after_claim
  after_lost (Done.returns row, w) = refl
  after_lost (Done.raises e, w) = refl

  lost_claim :
      (fate : Fate) (now : ℕ) (f : Store → Store) (w : World)
      → claimable w.store run_id ≡ false
      → (continue_with (after_claim run_id thread_id) (
          continue_with (winner thread_id run_id) (
            awaited
              (run_status_effect run_id RunStatus.running none)
              (record { now = now; meanwhile = f; fate = fate })
              w))).1.invoked
        ≡ w.invoked
  unfolding winner read_run_row
  lost_claim Fate.clear now f w h =
      rw (update_run_status_lost now w.store run_id RunStatus.running none h) (
        after_lost (await_op (run_row_effect thread_id run_id) w)
        ∙ (await-IsQuiet (run_row_effect thread_id run_id) (λ now w. (refl, refl)) w).0)
  lost_claim (Fate.lost e) now f w h = refl
  lost_claim (Fate.struck e) now f w h = refl

  execute_lost :
      (w : World)
      → claimable ((w.moments w.tick).meanwhile w.store) run_id ≡ false
      → (execute run_id thread_id w).1.invoked ≡ w.invoked
  unfolding execute claim_run write_run_status await_op
  execute_lost w h =
      let m = w.moments w.tick in
      let l =
        lost_claim m.fate m.now m.meanwhile
          (record w { store = m.meanwhile w.store; tick = suc w.tick }) h in
      (handle-quiet (handle_execution run_id thread_id) (handle_execution-IsQuiet run_id thread_id)
        (continue_with (after_claim run_id thread_id) (claim_run thread_id run_id w))).0
      ∙ l

  acquired_lost :
      (fate : Fate) (now : ℕ) (f : Store → Store) (w : World)
      → claimable ((w.moments w.tick).meanwhile w.store) run_id ≡ false
      → (once_acquired run_id thread_id (
          locked (
            awaited {A = Unit {0}}
              (λ now w. (tt, w))
              (record { now = now; meanwhile = f; fate = fate })
              w))).1.invoked
        ≡ w.invoked
  unfolding once_acquired
  acquired_lost Fate.clear now f w h = execute_lost (record w { held = true }) h
  acquired_lost (Fate.lost e) now f w h = (cancelled_in_queue-IsQuiet run_id e w).0
  acquired_lost (Fate.struck e) now f w h = (cancelled_in_queue-IsQuiet run_id e w).0

-- If the run's row is gone, or already final, in the store that the claim meets (after what others
-- did during the wait for the lock and during the claim's own await), then the graph is not invoked
-- for the run, whatever else happens.
pub run_to_completion_unclaimed :
    (run_id thread_id : ℕ) (w : World)
    → claimable ((w.moments (suc w.tick)).meanwhile ((w.moments w.tick).meanwhile w.store)) run_id
      ≡ false
    → (run_to_completion run_id thread_id w).1.invoked ≡ w.invoked
unfolding run_to_completion acquire_lock await_op
run_to_completion_unclaimed run_id thread_id w h =
    let m = w.moments w.tick in
    acquired_lost run_id thread_id m.fate m.now m.meanwhile
      (record w { store = m.meanwhile w.store; tick = suc w.tick }) h
