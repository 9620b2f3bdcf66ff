-- ===== src/RunOps/Terminal.antt =====
-- ops/runs.py: a streaming run publishes one terminal event, its last, unless it is cancelled; and the
-- finalizer publishes it then.
use skeino.Base.{ℕ, String, false, ◌≡◌, refl, Option, none, some, List, ◌++◌}
use skeino.Schemas.{RunStatus, ThreadStatus, RunRow}
use skeino.RunEvents.{TerminalEvent, RunEvent}
use skeino.RunOps.{Exn, Done, World, return_op, ◌>>=◌, ◌>>◌, Attempt, continue_with, handle_with}
use skeino.RunOps.Writes.{
  Outcome, claim_run, finish_run_status, except_exception, mark_run_failed, unless_superseded,
}
use skeino.RunOps.Requests.{terminal_event_for_row}
use skeino.RunOps.Publishing.{
  publish_event, publish_outcome, after_stream_claim, publish_failure, failed_stream, handle_stream,
  publish_run,
}
use skeino.RunOps.Chunks.{Shows, shown, kept-Shows, shown-IsBlind}
use skeino.RunOps.Views.{mark_run_failed-Keeps}
use skeino.RunOps.Bodies.{IsData, HasEnded, HasNotEnded, Body, published_last, body_ends}

module _ (log : List RunEvent) (attempts : ℕ → Attempt) (run : RunRow) where
  -- The run has ended if the task returned; otherwise it has not, and only a cancel is raised.
  abbrev pub Final : {A : Type 0} → Done A × World → Type 0
  Final (Done.returns a, w) = HasEnded log attempts run w
  Final (Done.raises e, w) = (e ≡ Exn.cancelled) × HasNotEnded log attempts run w

  publish_failure-Final :
      (events : List RunEvent) (d : IsData run attempts events) (text : String)
      (superseded : Option Outcome) (w : World)
      → Shows (log ++ events) attempts w
      → Final {A = ℕ} ((publish_failure run text superseded >> return_op 0) w)
  unfolding publish_failure publish_outcome publish_event
  publish_failure-Final events d text none w h =
      rw (h.1, publish_event)
        (
          events,
          TerminalEvent.error_event run.run_id text,
          none,
          d,
          (published_last log attempts run events d _ none w h, refl, h.2),
        )
  publish_failure-Final events d text (some outcome) w h =
      rw (h.1, publish_event)
        (
          events,
          terminal_event_for_row w.deleted_text run.run_id outcome,
          none,
          d,
          (published_last log attempts run events d _ none w h, refl, h.2),
        )

  failure_recorded :
      (events : List RunEvent) (d : IsData run attempts events) (text : String)
      (r : Done (Option Outcome) × World)
      → Shows (log ++ events) attempts (handle_with (except_exception none) r).1
      → Final {A = ℕ} (
          continue_with
            (λ superseded. publish_failure run text superseded >> return_op 0)
            (handle_with (except_exception none) r))
  unfolding except_exception
  failure_recorded events d text (Done.returns o, w) h = publish_failure-Final events d text o w h
  failure_recorded events d text (Done.raises (Exn.http e), w) h =
      publish_failure-Final events d text none w h
  failure_recorded events d text (Done.raises (Exn.fault e), w) h =
      publish_failure-Final events d text none w h
  failure_recorded events d text (Done.raises Exn.cancelled, w) h = (refl, (events, d, h))

  failed_ends :
      (text : String) (w : World)
      → HasNotEnded log attempts run w
      → Final (failed_stream run text w)
  unfolding failed_stream mark_run_failed
  failed_ends text w (events, d, h) =
      failure_recorded events d text
        ((finish_run_status run.thread_id run.run_id RunStatus.error (some text)
            >>= unless_superseded run.thread_id ThreadStatus.error)
          w)
        (kept-Shows w (mark_run_failed run.run_id run.thread_id text w).1
          (mark_run_failed-Keeps shown shown-IsBlind run.run_id run.thread_id text w) h)

  handled :
      (r : Done ℕ × World) → Body log attempts run r → Final (handle_with (handle_stream run) r)
  unfolding handle_stream
  handled (Done.returns n, w) b = b
  handled (Done.raises Exn.cancelled, w) b = (refl, b)
  handled (Done.raises (Exn.fault text), w) b = failed_ends text w b
  handled (Done.raises (Exn.http e), w) b = failed_ends (w.http_text e) w b

  pub publish_run-Final : (w : World) → Shows log attempts w → Final (publish_run run w)
  unfolding publish_run
  publish_run-Final w h =
      handled ((claim_run run.thread_id run.run_id >>= after_stream_claim run) w)
        (body_ends log attempts run w h)

-- A streaming run on its open stream, whatever fails or is cancelled at its awaits and whatever others
-- do to the store: if its task returns, the run published nothing or its metadata and the first chunks
-- of a single attempt, and then exactly one terminal event, the last. If its task raises, that is a
-- cancel, and no terminal event was published. The stream is still open.
pub publish_run_ends :
    (run : RunRow) (w : World)
    → w.stream_closed ≡ false
    → Final w.published w.attempts run (publish_run run w)
publish_run_ends run w h = publish_run-Final w.published w.attempts run w (refl, h, refl)
