-- ===== src/ThreadOps/Deletion.antt =====
-- ops/threads.py: the order of a thread's deletion, and the creation on demand.
use skeino.Base.{
  ap, Bool, false, ℕ, suc, ◌≡◌, refl, ◌⊎◌, true, List, ◌∷◌, arith, elem, Option-cases, inl, inr,
}
use skeino.Errors.{HttpError}
use skeino.Store.{Store, fetch_thread_row, delete_thread}
use skeino.RunOps.{Done, Fate, Moment, World, return_op, await_op, awaited, continue_with}
use skeino.RunOps.Requests.{
  require_row, ensure_exists, read_thread_row, thread_row_effect, found_or_404,
}
use skeino.ThreadOps.{delete, delete_checkpoints, checkpoints_effect, rows_effect}

-- The store is as it was, or the thread's rows went; in the second case its checkpoints were deleted,
-- unless the graph cannot do that: then they stay in either case.
abbrev pub IsOrdered : Bool → Store → ℕ → List ℕ → World → Type 0
IsOrdered true s thread_id deleted w =
    (w.store ≡ s)
    ⊎ ((w.store ≡ delete_thread s thread_id) × (elem thread_id w.deleted_checkpoints ≡ true))
IsOrdered false s thread_id deleted w =
    ((w.store ≡ s) ⊎ (w.store ≡ delete_thread s thread_id)) × (w.deleted_checkpoints ≡ deleted)

elem_head : (k : ℕ) (xs : List ℕ) → elem k (k ∷ xs) ≡ true
elem_head k xs = ground arith

-- No other task writes; each call still ends as its fate says.
abbrev pub alone : (ℕ → ℕ) → (ℕ → Fate) → ℕ → Moment
alone nows fates k = record { now = nows k; meanwhile = λ s. s; fate = fates k }

module _ (thread_id : ℕ) (s : Store) (deleted : List ℕ) where
  rows_deleted :
      (fate : Fate) (now : ℕ) (w : World)
      → w.store ≡ s
      → elem thread_id w.deleted_checkpoints ≡ true
      → IsOrdered true s thread_id deleted
          (awaited
            (rows_effect thread_id)
            (record { now = now; meanwhile = λ s. s; fate = fate })
            w).1
  rows_deleted Fate.clear now w e h = inr (ap (λ s. delete_thread s thread_id) e, h)
  rows_deleted (Fate.lost x) now w e h = inl e
  rows_deleted (Fate.struck x) now w e h = inr (ap (λ s. delete_thread s thread_id) e, h)

  rows_only :
      (fate : Fate) (now : ℕ) (w : World)
      → w.store ≡ s
      → w.deleted_checkpoints ≡ deleted
      → IsOrdered false s thread_id deleted
          (awaited
            (rows_effect thread_id)
            (record { now = now; meanwhile = λ s. s; fate = fate })
            w).1
  rows_only Fate.clear now w e h = (inr (ap (λ s. delete_thread s thread_id) e), h)
  rows_only (Fate.lost x) now w e h = (inl e, h)
  rows_only (Fate.struck x) now w e h = (inr (ap (λ s. delete_thread s thread_id) e), h)

  module _ (nows : ℕ → ℕ) (fates : ℕ → Fate) where
    after_checkpoints :
        (w : World)
        → w.store ≡ s
        → w.moments ≡ alone nows fates
        → elem thread_id w.deleted_checkpoints ≡ true
        → IsOrdered true s thread_id deleted (await_op (rows_effect thread_id) w).1
    unfolding await_op
    after_checkpoints w e m h = rw m (
        rows_deleted (fates w.tick) (nows w.tick)
          (record w { moments = alone nows fates; tick = suc w.tick }) e h)

    without_checkpoints :
        (w : World)
        → w.store ≡ s
        → w.moments ≡ alone nows fates
        → w.deleted_checkpoints ≡ deleted
        → IsOrdered false s thread_id deleted (await_op (rows_effect thread_id) w).1
    unfolding await_op
    without_checkpoints w e m h = rw m (
        rows_only (fates w.tick) (nows w.tick)
          (record w { moments = alone nows fates; tick = suc w.tick }) e h)

    checkpoints_deleted :
        (fate : Fate) (now : ℕ) (w : World)
        → w.store ≡ s
        → w.moments ≡ alone nows fates
        → IsOrdered true s thread_id deleted
            (continue_with
              (λ _. await_op (rows_effect thread_id))
              (awaited
                (checkpoints_effect thread_id)
                (record { now = now; meanwhile = λ s. s; fate = fate })
                w)).1
    checkpoints_deleted Fate.clear now w e m =
        after_checkpoints (record w { deleted_checkpoints = thread_id ∷ w.deleted_checkpoints }) e m
          (elem_head thread_id w.deleted_checkpoints)
    checkpoints_deleted (Fate.lost x) now w e m = inl e
    checkpoints_deleted (Fate.struck x) now w e m = inl e

    with_checkpoints :
        (w : World)
        → w.store ≡ s
        → w.moments ≡ alone nows fates
        → IsOrdered true s thread_id deleted
            (continue_with
              (λ _. await_op (rows_effect thread_id))
              (await_op (checkpoints_effect thread_id) w)).1
    unfolding await_op
    with_checkpoints w e m = rw m (
        checkpoints_deleted (fates w.tick) (nows w.tick)
          (record w { moments = alone nows fates; tick = suc w.tick }) e refl)

    required :
        (can_delete : Bool) (r : Done (Unit {0}) × World)
        → r.1.store ≡ s
        → r.1.moments ≡ alone nows fates
        → r.1.deleted_checkpoints ≡ deleted
        → IsOrdered can_delete s thread_id deleted
            (continue_with
              (λ _ w.
                continue_with
                  (λ _. await_op (rows_effect thread_id))
                  (delete_checkpoints can_delete thread_id w))
              r).1
    unfolding delete_checkpoints
    required true (Done.raises x, w) e m h = inl e
    required true (Done.returns a, w) e m h = with_checkpoints w e m
    required false (Done.raises x, w) e m h = (inl e, h)
    required false (Done.returns a, w) e m h = without_checkpoints w e m h

  exists_keeps :
      (nows : ℕ → ℕ) (fates : ℕ → Fate) (fate : Fate) (now : ℕ) (w : World)
      → w.store ≡ s
      → w.moments ≡ alone nows fates
      → let r =
          continue_with
            (λ _. return_op tt)
            (continue_with (found_or_404 (HttpError.thread_not_found thread_id)) (
              awaited
                (thread_row_effect thread_id)
                (record { now = now; meanwhile = λ s. s; fate = fate })
                w)) in
        (r.1.store ≡ s)
        × (r.1.moments ≡ alone nows fates)
        × (r.1.deleted_checkpoints ≡ w.deleted_checkpoints)
  exists_keeps nows fates Fate.clear now w e m =
      elim (Option-cases (fetch_thread_row w.store thread_id)) [
        | inl n ↦ rw n (e, m, refl)
        | inr (row, n) ↦ rw n (e, m, refl)
      ]
  exists_keeps nows fates (Fate.lost x) now w e m = (e, m, refl)
  exists_keeps nows fates (Fate.struck x) now w e m = (e, m, refl)

-- Deleting a thread asks for its checkpoints first: while no other task writes, and whichever of the
-- calls fails or is cancelled, the store is unchanged or has lost exactly the thread's rows. If the graph's
-- checkpointer can delete a thread, the rows go only after the checkpoints were deleted, so that none are
-- left behind for a thread that is gone; if there is none that can, no checkpoints are deleted.
pub delete_checkpoints_first :
    (can_delete : Bool) (thread_id : ℕ) (w : World) (nows : ℕ → ℕ) (fates : ℕ → Fate)
    → w.moments ≡ alone nows fates
    → IsOrdered can_delete w.store thread_id w.deleted_checkpoints (delete can_delete thread_id w).1
unfolding delete ensure_exists require_row read_thread_row await_op
delete_checkpoints_first can_delete thread_id w nows fates m =
    let w₁ = record w { moments = alone nows fates; tick = suc w.tick } in
    let k =
      exists_keeps thread_id w.store w.deleted_checkpoints nows fates (fates w.tick) (nows w.tick)
        w₁ refl refl in
    let r : Done (Unit {0}) × World =
      continue_with (λ _. return_op tt)
        (continue_with (found_or_404 (HttpError.thread_not_found thread_id))
          (awaited (thread_row_effect thread_id) (alone nows fates w.tick) w₁)) in
    rw m (required thread_id w.store w.deleted_checkpoints nows fates can_delete r k.0 k.1 k.2)
