-- ===== src/RunOps/CalmRuns.antt =====
-- ops/runs.py: the parts of a background run while others leave its row and its thread's row alone.
use skeino.Base.{
  [], ◌∷◌, ◌++◌, ℕ, zero, suc, String, true, false, ◌≡◌, refl, sym, ap, subst, ◌∙◌, none, some, get,
}
use skeino.Schemas.{RunStatus, in_flight, RunRow, ThreadStatus, ThreadRow}
use skeino.RunOps.{Exn, Done, World, return_op, raise_op, continue_with, handle_with}
use skeino.RunOps.Writes.{
  finish_run_status, settle_thread_after_success, mark_run_failed, mark_run_interrupted,
  except_exception,
}
use skeino.RunOps.Execution.{
  handle_execution, release_lock, execute_graph_run, after_finish, reported_tokens, settle_again,
  total_run_tokens,
}
use skeino.RunOps.Outcomes.{counted}
use skeino.RunOps.Quiet.{IsCalm, Sees, after_return, arrived, await_calm}
use skeino.RunOps.CalmWrites.{run_written, thread_written, settled_status, finishes, marks, settles}

-- How a computation ended, and the two rows after it.
abbrev pub Leaves : ℕ → ℕ → Done ℕ → RunRow → ThreadRow → Done ℕ × World → Type 0
Leaves run_id thread_id d row thread r =
    (r.0 ≡ d)
    × (get r.1.store.runs run_id ≡ some row)
    × (get r.1.store.threads thread_id ≡ some thread)

module _ (run_id thread_id : ℕ) (start : World) (calm : IsCalm run_id thread_id start.moments) where
  pub invokes :
      (n : ℕ) (row : RunRow) (thread : ThreadRow) (w : World)
      → Sees run_id thread_id start n row thread w
      → (w' : World) × (execute_graph_run run_id w ≡ (start.ainvoke run_id, w'))
        × Sees run_id thread_id start (suc n) row thread w'
  unfolding execute_graph_run
  invokes n row thread w s =
      let a : World = arrived run_id thread_id start calm n w in
      let w' : World = record a { invoked = a.invoked ++ run_id ∷ [] } in
      let (e, s') =
        await_calm run_id thread_id start calm
          (λ now w. (w.ainvoke run_id, record w { invoked = w.invoked ++ run_id ∷ [] })) n row
          thread w s in
      (
        w',
        ap (continue_with (λ (outcome : Done ℕ) (w : World). (outcome, w))) e
            ∙ ap (λ (f : ℕ → Done ℕ). (f run_id, w')) s'.ainvoke,
        record {
          found = s'.found;
          thread_found = s'.thread_found;
          moments = s'.moments;
          tick = s'.tick;
          ainvoke = s'.ainvoke;
          interrupts_of = s'.interrupts_of;
          tokens_of = s'.tokens_of;
          http_text = s'.http_text;
        },
      )

  pub reports :
      (used n : ℕ) (row : RunRow) (thread : ThreadRow) (w : World)
      → Sees run_id thread_id start n row thread w
      → Leaves run_id thread_id
          (Done.returns (counted used (start.tokens_of thread_id)))
          row
          thread
          (reported_tokens thread_id used w)
  unfolding reported_tokens total_run_tokens
  reports zero n row thread w s =
      let (e, s') =
        await_calm run_id thread_id start calm (λ now w. (w.tokens_of thread_id, w)) n row thread w
          s in
      subst
        (λ r.
          Leaves run_id thread_id (Done.returns (start.tokens_of thread_id)) row thread
            (handle_with (except_exception 0) r))
        (sym e)
        (ap (λ (f : ℕ → ℕ). Done.returns (f thread_id)) s'.tokens_of, s'.found, s'.thread_found)
  reports (suc used) n row thread w s = (refl, s.found, s.thread_found)

  module _ (n : ℕ) (row : RunRow) (thread : ThreadRow) (live : in_flight row.status ≡ true) where
    pub succeeds :
        (used : ℕ) (w : World)
        → Sees run_id thread_id start n row thread w
        → Leaves run_id thread_id
            (Done.returns (counted used (start.tokens_of thread_id)))
            (run_written run_id thread_id start calm n row RunStatus.success none)
            (thread_written run_id thread_id start calm
              (suc (suc n))
              thread
              (settled_status run_id thread_id start calm)
              true)
            (continue_with
              (after_finish thread_id used)
              (finish_run_status thread_id run_id RunStatus.success none w))
    unfolding after_finish
    succeeds used w s =
        let row' = run_written run_id thread_id start calm n row RunStatus.success none in
        let thread' =
          thread_written run_id thread_id start calm (suc (suc n)) thread
            (settled_status run_id thread_id start calm) true in
        let Q =
          Leaves run_id thread_id (Done.returns (counted used (start.tokens_of thread_id))) row'
            thread' in
        after_return Q (Sees run_id thread_id start (suc n) row' thread)
          (after_finish thread_id used) none
          (finish_run_status thread_id run_id RunStatus.success none w)
          (finishes run_id thread_id start calm RunStatus.success none n row thread w live s)
          (λ w' p.
            after_return Q (Sees run_id thread_id start (suc (suc (suc n))) row' thread')
              (λ u. reported_tokens thread_id used) tt (settle_thread_after_success thread_id w')
              (settles run_id thread_id start calm (suc n) row' thread w' p)
              (λ w'' q. reports used (suc (suc (suc n))) row' thread' w'' q))

    pub fails :
        (text : String) (w : World)
        → Sees run_id thread_id start n row thread w
        → Leaves run_id thread_id
            (Done.returns 0)
            (run_written run_id thread_id start calm n row RunStatus.error (some text))
            (thread_written run_id thread_id start calm (suc n) thread ThreadStatus.error false)
            (continue_with (λ superseded. return_op 0) (mark_run_failed run_id thread_id text w))
    unfolding mark_run_failed
    fails text w s =
        let row' = run_written run_id thread_id start calm n row RunStatus.error (some text) in
        let thread' =
          thread_written run_id thread_id start calm (suc n) thread ThreadStatus.error false in
        after_return (Leaves run_id thread_id (Done.returns 0) row' thread')
          (Sees run_id thread_id start (suc (suc n)) row' thread') (λ superseded. return_op 0) none
          (mark_run_failed run_id thread_id text w)
          (marks run_id thread_id start calm RunStatus.error (some text) ThreadStatus.error n row
            thread w live s)
          (λ w' p. (refl, p.found, p.thread_found))

    pub stops :
        (w : World)
        → Sees run_id thread_id start n row thread w
        → Leaves run_id thread_id
            (Done.raises Exn.cancelled)
            (run_written run_id thread_id start calm n row RunStatus.interrupted
              (some "Run interrupted."))
            (thread_written run_id thread_id start calm (suc n) thread ThreadStatus.idle false)
            (handle_execution run_id thread_id Exn.cancelled w)
    unfolding handle_execution mark_run_interrupted settle_again
    stops w s =
        let row' =
          run_written run_id thread_id start calm n row RunStatus.interrupted
            (some "Run interrupted.") in
        let thread' =
          thread_written run_id thread_id start calm (suc n) thread ThreadStatus.idle false in
        after_return (Leaves run_id thread_id (Done.raises Exn.cancelled) row' thread')
          (Sees run_id thread_id start (suc (suc n)) row' thread')
          (λ superseded w.
            continue_with (λ u. raise_op Exn.cancelled) (settle_again thread_id superseded w))
          none (mark_run_interrupted run_id thread_id w)
          (marks run_id thread_id start calm RunStatus.interrupted (some "Run interrupted.")
            ThreadStatus.idle n row thread w live s)
          (λ w' p. (refl, p.found, p.thread_found))

  pub handled_leaves :
      (a : ℕ) (row : RunRow) (thread : ThreadRow) (h : Exn → World → Done ℕ × World)
      (r : Done ℕ × World)
      → Leaves run_id thread_id (Done.returns a) row thread r
      → Leaves run_id thread_id (Done.returns a) row thread (handle_with h r)
  handled_leaves a row thread h (d, w) (e, x, y) =
      subst (λ d'. Leaves run_id thread_id (Done.returns a) row thread (handle_with h (d', w)))
        (sym e) (refl, x, y)

  pub released_leaves :
      (d : Done ℕ) (row : RunRow) (thread : ThreadRow) (r : Done ℕ × World)
      → Leaves run_id thread_id d row thread r
      → Leaves run_id thread_id d row thread (release_lock r)
  released_leaves d row thread (d', w) l = l
