-- ===== src/RunOps/Settling.antt =====
-- ops/runs.py: `_settle_thread_after_success` loses no thread.
use skeino.Base.{
  ℕ, suc, Bool, true, false, ◌≡◌, refl, ap, ◌∙◌, ◌⊎◌, Option, none, some, List, [], ◌∷◌, ◌++◌,
  arith, elem, if◌then◌else◌, get, get-put_self, Option-cases, Bool-cases, inl, inr,
}
use skeino.Schemas.{ThreadStatus, thread_status_eq, ThreadRow}
use skeino.Store.{Store, update_thread, updated_row}
use skeino.RunOps.{Exn, Done, Fate, World, ◌>>=◌, await_op, continue_with, handle_with, awaited}
use skeino.RunOps.Writes.{
  note_unsettled, note_settled, settled_thread_status, settled_effect, thread_status_effect,
  write_thread_status, settle_thread_after_success, except_exception, status_update,
}

abbrev busy_row : Option ThreadRow → Bool
busy_row none = false
busy_row (some row) = thread_status_eq row.status ThreadStatus.busy

abbrev pub is_busy : Store → ℕ → Bool
is_busy s thread_id = busy_row (get s.threads thread_id)

update_thread-is_busy :
    (now : ℕ) (s : Store) (thread_id : ℕ) (status : ThreadStatus) (mark : Bool)
    → thread_status_eq status ThreadStatus.busy ≡ false
    → is_busy (update_thread now now s thread_id (status_update status mark)) thread_id ≡ false
unfolding update_thread updated_row
update_thread-is_busy now s thread_id status mark h =
    elim (Option-cases (get s.threads thread_id)) [
      | inl e ↦ rw (e, update_thread) (ap busy_row e)
      | inr (row, e) ↦ rw (e, update_thread) (ap busy_row (get-put_self s.threads thread_id _) ∙ h)
    ]

-- The thread is queued for a retry, or is not busy any more.
abbrev IsKept : ℕ → Done (Unit {0}) × World → Type 0
IsKept thread_id (d, w) =
    (elem thread_id w.unsettled_threads ≡ true) ⊎ (is_busy w.store thread_id ≡ false)

excepted :
    (thread_id : ℕ) (r : Done (Unit {0}) × World)
    → IsKept thread_id r
    → IsKept thread_id (handle_with (except_exception tt) r)
unfolding except_exception
excepted thread_id (Done.returns a, w) k = k
excepted thread_id (Done.raises (Exn.http e), w) k = k
excepted thread_id (Done.raises (Exn.fault e), w) k = k
excepted thread_id (Done.raises Exn.cancelled, w) k = k

written :
    (thread_id : ℕ) (status : ThreadStatus) (fate : Fate) (now : ℕ) (f : Store → Store) (w : World)
    → thread_status_eq status ThreadStatus.busy ≡ false
    → elem thread_id w.unsettled_threads ≡ true
    → IsKept thread_id (
        continue_with
          (λ _. note_settled thread_id)
          (awaited
            (thread_status_effect thread_id status true)
            (record { now = now; meanwhile = f; fate = fate })
            w))
written thread_id status Fate.clear now f w h k =
    inr (update_thread-is_busy now w.store thread_id status true h)
written thread_id status (Fate.lost e) now f w h k = inl k
written thread_id status (Fate.struck e) now f w h k = inl k

settled_not_busy :
    (b : Bool)
    → thread_status_eq (if b then ThreadStatus.interrupted else ThreadStatus.idle) ThreadStatus.busy
      ≡ false
settled_not_busy true = refl
settled_not_busy false = refl

read :
    (thread_id : ℕ) (fate : Fate) (now : ℕ) (f : Store → Store) (w : World)
    → elem thread_id w.unsettled_threads ≡ true
    → IsKept thread_id (
        continue_with
          (λ status. write_thread_status thread_id status true >>= λ _. note_settled thread_id)
          (awaited (settled_effect thread_id) (record { now = now; meanwhile = f; fate = fate }) w))
unfolding write_thread_status await_op
read thread_id Fate.clear now f w k =
    let m = w.moments w.tick in
    written thread_id
      (if w.interrupts_of thread_id then ThreadStatus.interrupted else ThreadStatus.idle) m.fate
      m.now m.meanwhile (record w { store = m.meanwhile w.store; tick = suc w.tick })
      (settled_not_busy (w.interrupts_of thread_id)) k
read thread_id (Fate.lost e) now f w k = inl k
read thread_id (Fate.struck e) now f w k = inl k

elem-noted : (k : ℕ) (xs : List ℕ) → elem k (if elem k xs then xs else xs ++ k ∷ []) ≡ true
elem-noted k xs = elim (Bool-cases (elem k xs)) [ inl t ↦ rw t t | inr t ↦ rw t (appended xs) ]
  where
    appended : (xs : List ℕ) → elem k (xs ++ k ∷ []) ≡ true
    appended [] = ground arith
    appended (x ∷ xs) = ground (arith, appended xs)

-- After a run's success, settling its thread ends in one of two ways, whatever fails or is cancelled
-- on the way: the thread is in the set that the liveness pass retries, or its row is not busy.
pub settle_thread_after_success_kept :
    (thread_id : ℕ) (w : World)
    → let w' = (settle_thread_after_success thread_id w).1 in
      (elem thread_id w'.unsettled_threads ≡ true) ⊎ (is_busy w'.store thread_id ≡ false)
unfolding settle_thread_after_success settled_thread_status await_op
settle_thread_after_success_kept thread_id w =
    let w₁ = (note_unsettled thread_id w).1 in
    let m = w.moments w.tick in
    excepted thread_id _ (
      read thread_id m.fate m.now m.meanwhile
        (record w₁ { store = m.meanwhile w.store; tick = suc w.tick })
        (elem-noted thread_id w.unsettled_threads))
