-- ===== src/RunOps/CalmWrites.antt =====
-- ops/runs.py: the status writes of a run while others leave its row and its thread's row alone.
use skeino.Base.{
  ℕ, suc, String, Bool, true, false, ◌≡◌, refl, ap, ◌∙◌, Option, none, get-put_self, if◌then◌else◌,
}
use skeino.Schemas.{RunStatus, in_flight, RunRow, ThreadStatus, ThreadRow}
use skeino.Store.{Store, updated_row}
use skeino.RunOps.{Exn, Done, World, return_op, continue_with, handle_with}
use skeino.RunOps.Writes.{
  write_run_status, winner, claim_run, finish_run_status, write_thread_status, status_update,
  settled_thread_status, settled_effect, settle_thread_after_success, note_unsettled, note_settled,
  run_status_effect, thread_status_effect, unless_superseded, except_exception,
}
use skeino.RunOps.Outcomes.{with_status, with_thread, write_found, thread_found}
use skeino.RunOps.Quiet.{IsCalm, Sees, Returned, after_return, arrived, await_calm}

module _ (run_id thread_id : ℕ) (start : World) (calm : IsCalm run_id thread_id start.moments) where
  abbrev pub Saw : ℕ → RunRow → ThreadRow → World → Type 0
  Saw n row thread = Sees run_id thread_id start n row thread

  abbrev pub run_written : ℕ → RunRow → RunStatus → Option String → RunRow
  run_written n row status error = record row {
    status = status;
    updated_at = (start.moments n).now;
    error = error;
  }

  abbrev pub thread_written : ℕ → ThreadRow → ThreadStatus → Bool → ThreadRow
  thread_written n thread status mark =
      let now = (start.moments n).now in updated_row now now (status_update status mark) thread

  write_run :
      (status : RunStatus) (error : Option String) (n : ℕ) (row : RunRow) (thread : ThreadRow)
      (w : World)
      → in_flight row.status ≡ true
      → Saw n row thread w
      → Returned true
          (Saw (suc n) (run_written n row status error) thread)
          (write_run_status run_id status error w)
  unfolding write_run_status
  write_run status error n row thread w live s =
      let now = (start.moments n).now in
      let a : World = arrived run_id thread_id start calm n w in
      let (e, s') =
        await_calm run_id thread_id start calm (run_status_effect run_id status error) n row thread
          w s in
      (
        record a { store = with_status a.store now run_id row status error },
        e
            ∙ ap (λ (u : Bool × Store). (Done.returns u.0, record a { store = u.1 }))
                (write_found a.store now run_id row status error s'.found live),
        record {
          found = get-put_self a.store.runs run_id (run_written n row status error);
          thread_found = s'.thread_found;
          moments = s'.moments;
          tick = s'.tick;
          ainvoke = s'.ainvoke;
          interrupts_of = s'.interrupts_of;
          tokens_of = s'.tokens_of;
          http_text = s'.http_text;
        },
      )

  pub write_thread :
      (status : ThreadStatus) (mark : Bool) (n : ℕ) (row : RunRow) (thread : ThreadRow) (w : World)
      → Saw n row thread w
      → Returned tt
          (Saw (suc n) row (thread_written n thread status mark))
          (write_thread_status thread_id status mark w)
  unfolding write_thread_status
  write_thread status mark n row thread w s =
      let now = (start.moments n).now in
      let a : World = arrived run_id thread_id start calm n w in
      let (e, s') =
        await_calm run_id thread_id start calm (thread_status_effect thread_id status mark) n row
          thread w s in
      (
        record a { store = with_thread a.store now thread_id thread status mark },
        e
            ∙ ap (λ (u : Store). (Done.returns tt, record a { store = u }))
                (thread_found a.store now thread_id thread status mark s'.thread_found),
        record {
          found = s'.found;
          thread_found =
              get-put_self a.store.threads thread_id (thread_written n thread status mark);
          moments = s'.moments;
          tick = s'.tick;
          ainvoke = s'.ainvoke;
          interrupts_of = s'.interrupts_of;
          tokens_of = s'.tokens_of;
          http_text = s'.http_text;
        },
      )

  pub claims :
      (n : ℕ) (row : RunRow) (thread : ThreadRow) (w : World)
      → in_flight row.status ≡ true
      → Saw n row thread w
      → Returned none
          (Saw (suc n) (run_written n row RunStatus.running none) thread)
          (claim_run thread_id run_id w)
  unfolding claim_run winner
  claims n row thread w live s =
      let P = Saw (suc n) (run_written n row RunStatus.running none) thread in
      after_return (Returned none P) P (winner thread_id run_id) true
        (write_run_status run_id RunStatus.running none w)
        (write_run RunStatus.running none n row thread w live s) (λ w' p. (w', refl, p))

  pub finishes :
      (status : RunStatus) (error : Option String) (n : ℕ) (row : RunRow) (thread : ThreadRow)
      (w : World)
      → in_flight row.status ≡ true
      → Saw n row thread w
      → Returned none
          (Saw (suc n) (run_written n row status error) thread)
          (finish_run_status thread_id run_id status error w)
  unfolding finish_run_status winner
  finishes status error n row thread w live s =
      let P = Saw (suc n) (run_written n row status error) thread in
      after_return (Returned none P) P (winner thread_id run_id) true
        (write_run_status run_id status error w) (write_run status error n row thread w live s)
        (λ w' p. (w', refl, p))

  pub handle_with-Returned :
      {A : Type 0} (P : World → Type 0) (a : A) (h : Exn → World → Done A × World)
      (r : Done A × World)
      → Returned a P r
      → Returned a P (handle_with h r)
  handle_with-Returned P a h r (w, e, p) = (w, ap (handle_with h) e, p)

  -- The final status and then the thread's, as `_mark_run_failed` and `_mark_run_interrupted` write them.
  pub marks :
      (status : RunStatus) (error : Option String) (settled : ThreadStatus) (n : ℕ) (row : RunRow)
      (thread : ThreadRow) (w : World)
      → in_flight row.status ≡ true
      → Saw n row thread w
      → Returned none
          (Saw
            (suc (suc n))
            (run_written n row status error)
            (thread_written (suc n) thread settled false))
          (handle_with (except_exception none) (
            continue_with
              (unless_superseded thread_id settled)
              (finish_run_status thread_id run_id status error w)))
  unfolding unless_superseded
  marks status error settled n row thread w live s =
      let P =
        Saw (suc (suc n)) (run_written n row status error)
          (thread_written (suc n) thread settled false) in
      handle_with-Returned P none (except_exception none) _ (
        after_return (Returned none P) (Saw (suc n) (run_written n row status error) thread)
          (unless_superseded thread_id settled) none
          (finish_run_status thread_id run_id status error w)
          (finishes status error n row thread w live s)
          (λ w' p.
            after_return (Returned none P) P (λ u. return_op none) tt
              (write_thread_status thread_id settled false w')
              (write_thread settled false (suc n) (run_written n row status error) thread w' p)
              (λ w'' q. (w'', refl, q))))

  -- The thread's status after a success.
  abbrev pub settled_status : ThreadStatus
  settled_status =
      if start.interrupts_of thread_id then ThreadStatus.interrupted else ThreadStatus.idle

  reads_interrupts :
      (n : ℕ) (row : RunRow) (thread : ThreadRow) (w : World)
      → Saw n row thread w
      → Returned settled_status (Saw (suc n) row thread) (settled_thread_status thread_id w)
  unfolding settled_thread_status
  reads_interrupts n row thread w s =
      let a : World = arrived run_id thread_id start calm n w in
      let (e, s') =
        await_calm run_id thread_id start calm (settled_effect thread_id) n row thread w s in
      (
        a,
        e
            ∙ ap
                (λ (f : ℕ → Bool). (
                  Done.returns
                      (if f thread_id then ThreadStatus.interrupted else ThreadStatus.idle),
                  a,
                ))
                s'.interrupts_of,
        s',
      )

  pub settles :
      (n : ℕ) (row : RunRow) (thread : ThreadRow) (w : World)
      → Saw n row thread w
      → Returned tt
          (Saw (suc (suc n)) row (thread_written (suc n) thread settled_status true))
          (settle_thread_after_success thread_id w)
  unfolding settle_thread_after_success
  settles n row thread w s =
      let P = Saw (suc (suc n)) row (thread_written (suc n) thread settled_status true) in
      let noted : World = (note_unsettled thread_id w).1 in
      let s' : Saw n row thread noted = record {
        found = s.found;
        thread_found = s.thread_found;
        moments = s.moments;
        tick = s.tick;
        ainvoke = s.ainvoke;
        interrupts_of = s.interrupts_of;
        tokens_of = s.tokens_of;
        http_text = s.http_text;
      } in
      handle_with-Returned P tt (except_exception tt) _ (
        after_return (Returned tt P) (Saw (suc n) row thread)
          (λ status w.
            continue_with (λ u. note_settled thread_id)
              (write_thread_status thread_id status true w))
          settled_status (settled_thread_status thread_id noted)
          (reads_interrupts n row thread noted s')
          (λ w' p.
            after_return (Returned tt P) P (λ u. note_settled thread_id) tt
              (write_thread_status thread_id settled_status true w')
              (write_thread settled_status true (suc n) row thread w' p)
              (λ w'' q. (
                (note_settled thread_id w'').1,
                refl,
                record {
                  found = q.found;
                  thread_found = q.thread_found;
                  moments = q.moments;
                  tick = q.tick;
                  ainvoke = q.ainvoke;
                  interrupts_of = q.interrupts_of;
                  tokens_of = q.tokens_of;
                  http_text = q.http_text;
                },
              ))))
