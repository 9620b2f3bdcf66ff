-- ===== src/RunOps/Calm.antt =====
-- ops/runs.py: what a background run leaves in the store when no await of its own fails.
use skeino.Base.{ℕ, zero, suc, String, true, false, ◌≡◌, refl, sym, ap, subst, ◌∙◌, none, some, get}
use skeino.Errors.{HttpError}
use skeino.Schemas.{RunStatus, in_flight, RunRow, ThreadStatus, ThreadRow}
use skeino.Store.{updated_row}
use skeino.RunOps.{Exn, Done, World, continue_with, handle_with}
use skeino.RunOps.Writes.{claim_run, finish_run_status, write_thread_status}
use skeino.RunOps.Execution.{
  run_to_completion, execute, handle_execution, after_claim, acquire_lock, locked, once_acquired,
  execute_graph_run, after_finish,
}
use skeino.RunOps.Outcomes.{counted, expected_done, expected_run, expected_thread}
use skeino.RunOps.Quiet.{IsCalm, Sees, after_return, arrived, await_calm}
use skeino.RunOps.CalmWrites.{run_written, thread_written, write_thread, claims}
use skeino.RunOps.CalmRuns.{
  Leaves, invokes, succeeds, fails, stops, handled_leaves, released_leaves,
}

-- The await at which the thread's last status is written: the seventh after a success, else the sixth.
abbrev pub settling : Done ℕ → ℕ
settling (Done.returns used) = 6
settling (Done.raises e) = 5

-- The number of the await that comes so many awaits later.
abbrev pub later : ℕ → ℕ → ℕ
later zero tick = tick
later (suc n) tick = suc (later n tick)

-- What the clock shows at an await of a run that starts in that world; the first one has the number 0.
abbrev pub clock : World → ℕ → ℕ
clock start k = (start.moments (later k start.tick)).now

module _ (run_id thread_id : ℕ) (start : World) (calm : IsCalm run_id thread_id start.moments)
    (row : RunRow) (thread : ThreadRow) where
  abbrev AsExpected : Done ℕ → Done ℕ × World → Type 0
  AsExpected outcome =
      Leaves run_id thread_id (expected_done (start.tokens_of thread_id) outcome)
        (expected_run start.http_text (clock start 4) outcome row)
        (expected_thread (clock start (settling outcome)) outcome (start.interrupts_of thread_id)
          thread)

  abbrev row₁ : RunRow
  row₁ = run_written run_id thread_id start calm (later 1 start.tick) row RunStatus.running none

  abbrev thread₁ : ThreadRow
  thread₁ =
      thread_written run_id thread_id start calm (later 2 start.tick) thread ThreadStatus.busy false

  after_graph : ℕ → World → Done ℕ × World
  after_graph used w =
      continue_with (after_finish thread_id used)
        (finish_run_status thread_id run_id RunStatus.success none w)

  by_outcome :
      (outcome : Done ℕ) (w : World)
      → Sees run_id thread_id start (later 4 start.tick) row₁ thread₁ w
      → AsExpected outcome
          (handle_with (handle_execution run_id thread_id) (continue_with after_graph (outcome, w)))
  unfolding after_graph handle_execution updated_row
  by_outcome (Done.returns used) w s =
      handled_leaves run_id thread_id start calm (counted used (start.tokens_of thread_id)) _ _
        (handle_execution run_id thread_id) (after_graph used w)
        (succeeds run_id thread_id start calm (later 4 start.tick) row₁ thread₁ refl used w s)
  by_outcome (Done.raises (Exn.fault text)) w s =
      fails run_id thread_id start calm (later 4 start.tick) row₁ thread₁ refl text w s
  by_outcome (Done.raises (Exn.http e)) w s =
      subst
        (λ (f : HttpError → String).
          Leaves run_id thread_id (Done.returns 0)
            (expected_run f (clock start 4) (Done.raises (Exn.http e)) row)
            (expected_thread (clock start 5) (Done.raises (Exn.http e))
              (start.interrupts_of thread_id) thread)
            (handle_execution run_id thread_id (Exn.http e) w))
        s.http_text
        (fails run_id thread_id start calm (later 4 start.tick) row₁ thread₁ refl (w.http_text e) w
          s)
  by_outcome (Done.raises Exn.cancelled) w s =
      stops run_id thread_id start calm (later 4 start.tick) row₁ thread₁ refl w s

  graph_run :
      (outcome : Done ℕ) (w : World)
      → start.ainvoke run_id ≡ outcome
      → Sees run_id thread_id start (later 3 start.tick) row₁ thread₁ w
      → AsExpected outcome (
          handle_with
            (handle_execution run_id thread_id)
            (continue_with after_graph (execute_graph_run run_id w)))
  graph_run outcome w o s =
      let (w', e, s') = invokes run_id thread_id start calm (later 3 start.tick) row₁ thread₁ w s in
      subst
        (λ r.
          AsExpected outcome
            (handle_with (handle_execution run_id thread_id) (continue_with after_graph r)))
        (sym (e ∙ ap (λ (d : Done ℕ). (d, w')) o)) (by_outcome outcome w' s')

  executes :
      (outcome : Done ℕ) (w : World)
      → start.ainvoke run_id ≡ outcome
      → in_flight row.status ≡ true
      → Sees run_id thread_id start (later 1 start.tick) row thread w
      → AsExpected outcome (execute run_id thread_id w)
  unfolding execute after_claim after_graph
  executes outcome w o live s =
      let Q : Done ℕ × World → Type 0 =
        λ r. AsExpected outcome (handle_with (handle_execution run_id thread_id) r) in
      after_return Q (Sees run_id thread_id start (later 2 start.tick) row₁ thread)
        (after_claim run_id thread_id) none (claim_run thread_id run_id w)
        (claims run_id thread_id start calm (later 1 start.tick) row thread w live s)
        (λ w' p.
          after_return Q (Sees run_id thread_id start (later 3 start.tick) row₁ thread₁)
            (λ u w''. continue_with after_graph (execute_graph_run run_id w'')) tt
            (write_thread_status thread_id ThreadStatus.busy false w')
            (write_thread run_id thread_id start calm ThreadStatus.busy false (later 2 start.tick)
              row₁ thread w' p)
            (λ w'' q. graph_run outcome w'' o q))

  completes :
      (outcome : Done ℕ)
      → start.ainvoke run_id ≡ outcome
      → get start.store.runs run_id ≡ some row
      → in_flight row.status ≡ true
      → get start.store.threads thread_id ≡ some thread
      → AsExpected outcome (run_to_completion run_id thread_id start)
  unfolding run_to_completion acquire_lock once_acquired
  completes outcome o e live g =
      let here : Sees run_id thread_id start start.tick row thread start = record {
        found = e;
        thread_found = g;
        moments = refl;
        tick = refl;
        ainvoke = refl;
        interrupts_of = refl;
        tokens_of = refl;
        http_text = refl;
      } in
      let (a, s) =
        await_calm run_id thread_id start calm (λ now w. (tt, w)) start.tick row thread start
          here in
      let held : World = record (arrived run_id thread_id start calm start.tick start) {
        held = true;
      } in
      let s' : Sees run_id thread_id start (later 1 start.tick) row thread held = record {
        found = s.found;
        thread_found = s.thread_found;
        moments = s.moments;
        tick = s.tick;
        ainvoke = s.ainvoke;
        interrupts_of = s.interrupts_of;
        tokens_of = s.tokens_of;
        http_text = s.http_text;
      } in
      subst (λ r. AsExpected outcome (once_acquired run_id thread_id (locked r))) (sym a)
        (released_leaves run_id thread_id start calm _ _ _ (execute run_id thread_id held)
          (executes outcome held o live s'))

-- A background run of an in-flight row on an existing thread, in a world in which no await of its own
-- fails and what others do to the store meanwhile keeps the run's row and the thread's: after the graph
-- has returned, the run is `success` and the thread `interrupted` or `idle` as its state is parked or
-- not, and the task returns the tokens of its usage handler, or if they are none those of the messages;
-- after an exception both are `error`, with its text on the run, and it returns 0; after a cancel of the
-- graph's call the run is `interrupted`, the thread `idle`, and the cancel is raised again. The run's
-- row has the time of the fifth await, the thread's that of the seventh or sixth; nothing else of the two
-- rows changes, but that the thread's state counts as updated then after a success.
pub run_to_completion_outcome :
    (run_id thread_id : ℕ) (w : World) (row : RunRow) (thread : ThreadRow)
    → IsCalm run_id thread_id w.moments
    → get w.store.runs run_id ≡ some row
    → in_flight row.status ≡ true
    → get w.store.threads thread_id ≡ some thread
    → let outcome = w.ainvoke run_id in
      Leaves run_id thread_id
        (expected_done (w.tokens_of thread_id) outcome)
        (expected_run w.http_text (clock w 4) outcome row)
        (expected_thread (clock w (settling outcome)) outcome (w.interrupts_of thread_id) thread)
        (run_to_completion run_id thread_id w)
run_to_completion_outcome run_id thread_id w row thread calm e live g =
    completes run_id thread_id w calm row thread (w.ainvoke run_id) refl e live g
