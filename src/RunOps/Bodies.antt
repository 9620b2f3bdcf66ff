-- ===== src/RunOps/Bodies.antt =====
-- ops/runs.py: what the body of a streaming run publishes, before its exceptions are handled.
use skeino.Base.{
  ℕ, false, ◌≡◌, refl, sym, ap, ◌∙◌, ◌⊎◌, inl, inr, Option, none, some, List, [], ◌∷◌, ◌++◌, take,
}
use mathlib.Core.List.{append_assoc, append-nil}
use skeino.Schemas.{RunStatus, ThreadStatus, RunRow}
use skeino.Sse.Retries.{stream_max_retries}
use skeino.RunEvents.{TerminalEvent, RunEvent}
use skeino.RunOps.{Done, World, Op, return_op, ◌>>=◌, ◌>>◌, Attempt, continue_with}
use skeino.RunOps.Writes.{
  Outcome, write_thread_status, claim_run, finish_run_status, settle_thread_after_success,
}
use skeino.RunOps.Requests.{terminal_event_for_row}
use skeino.RunOps.Publishing.{
  publish_event, attempt_loop, publish_outcome, streamed_total, publish_success, after_stream,
  after_stream_claim,
}
use skeino.RunOps.Chunks.{Shows, shown, kept-Shows, shown-IsBlind, chunk_events}
use skeino.RunOps.Attempts.{OneAttempt, attempt_loop-OneAttempt}
use skeino.RunOps.Views.{
  Keeps, claim_run-Keeps, finish_run_status-Keeps, write_thread_status-Keeps, settle-Keeps,
  reported_tokens-Keeps,
}

-- The events before the terminal one: none, or the metadata and the first chunks of one attempt.
abbrev pub IsData : RunRow → (ℕ → Attempt) → List RunEvent → Type 0
IsData run attempts events =
    (events ≡ [])
    ⊎ ((attempt n : ℕ) × (events
          ≡ RunEvent.metadata run ∷ take n (chunk_events (attempts attempt).chunks)))

module _ (log : List RunEvent) (attempts : ℕ → Attempt) (run : RunRow) where
  abbrev pub HasEnded : World → Type 0
  HasEnded w =
      (events : List RunEvent) × (event : TerminalEvent) × (tokens : Option ℕ) × IsData run attempts
        events
      × Shows (log ++ (events ++ RunEvent.terminal event tokens ∷ [])) attempts w

  abbrev pub HasNotEnded : World → Type 0
  HasNotEnded w =
      (events : List RunEvent) × IsData run attempts events × Shows (log ++ events) attempts w

  -- It ended if it returned, and has not if it raised.
  abbrev pub Body : {A : Type 0} → Done A × World → Type 0
  Body (Done.returns a, w) = HasEnded w
  Body (Done.raises e, w) = HasNotEnded w

  module _ (events : List RunEvent) (d : IsData run attempts events) where
    bound :
        {A B : Type 0} (f : A → Op B) (r : Done A × World)
        → Shows (log ++ events) attempts r.1
        → ((a : A) (w : World) → Shows (log ++ events) attempts w → Body (f a w))
        → Body (continue_with f r)
    bound f (Done.returns a, w) h k = k a w h
    bound f (Done.raises e, w) h k = (events, d, h)

    -- An operation that publishes nothing, then one that does.
    pub silently :
        {A B : Type 0} (m : Op A) (f : A → Op B)
        → Keeps shown m
        → (w : World) → Shows (log ++ events) attempts w
        → ((a : A) (w : World) → Shows (log ++ events) attempts w → Body (f a w))
        → Body ((m >>= f) w)
    silently m f q w h k = bound f (m w) (kept-Shows w (m w).1 (q w) h) k

    pub published_last :
        (event : TerminalEvent) (tokens : Option ℕ) (w : World)
        → Shows (log ++ events) attempts w
        → w.published ++ RunEvent.terminal event tokens ∷ []
          ≡ log ++ (events ++ RunEvent.terminal event tokens ∷ [])
    published_last event tokens w h =
        ap (λ l. l ++ RunEvent.terminal event tokens ∷ []) h.0
        ∙ append_assoc log events (RunEvent.terminal event tokens ∷ [])

    ending :
        (event : TerminalEvent) (tokens : Option ℕ) (n : ℕ) (w : World)
        → Shows (log ++ events) attempts w
        → Body ((publish_event (RunEvent.terminal event tokens) >> return_op n) w)
    unfolding publish_event
    ending event tokens n w h =
        rw (h.1, publish_event)
          (events, event, tokens, d, (published_last event tokens w h, refl, h.2))

    pub publication_ends :
        (event : TerminalEvent) (tokens : Option ℕ) (w : World)
        → Shows (log ++ events) attempts w
        → Body (publish_event (RunEvent.terminal event tokens) w)
    unfolding publish_event
    publication_ends event tokens w h =
        rw (h.1, publish_event)
          (events, event, tokens, d, (published_last event tokens w h, refl, h.2))

    outcome_ends :
        (outcome : Outcome) (w : World)
        → Shows (log ++ events) attempts w
        → Body {A = ℕ} ((publish_outcome run.run_id outcome >> return_op 0) w)
    unfolding publish_outcome
    outcome_ends outcome w h =
        ending (terminal_event_for_row w.deleted_text run.run_id outcome) none 0 w h

    streamed_total-Keeps : Keeps shown (streamed_total run.thread_id)
    unfolding streamed_total
    streamed_total-Keeps w =
        reported_tokens-Keeps shown shown-IsBlind run.thread_id w.streamed_tokens w

    success_ends : (w : World) → Shows (log ++ events) attempts w → Body (publish_success run w)
    unfolding publish_success
    success_ends w h =
        silently (settle_thread_after_success run.thread_id) _
          (settle-Keeps shown shown-IsBlind run.thread_id) w h
          (λ a w h. silently (streamed_total run.thread_id) _ streamed_total-Keeps w h (λ total w h.
            ending (TerminalEvent.end_event run.run_id RunStatus.success) (some total) total w h))

    after_stream_ends :
        (superseded : Option Outcome) (w : World)
        → Shows (log ++ events) attempts w
        → Body (after_stream run superseded w)
    unfolding after_stream
    after_stream_ends none w h = success_ends w h
    after_stream_ends (some outcome) w h = outcome_ends outcome w h

    finished_ends :
        (w : World)
        → Shows (log ++ events) attempts w
        → Body (
            (finish_run_status run.thread_id run.run_id RunStatus.success none >>= after_stream run)
              w)
    finished_ends w h =
        silently (finish_run_status run.thread_id run.run_id RunStatus.success none)
          (after_stream run)
          (finish_run_status-Keeps shown shown-IsBlind run.thread_id run.run_id RunStatus.success
            none)
          w h after_stream_ends

  attempts_end :
      (r : Done (Unit {0}) × World)
      → OneAttempt (log ++ RunEvent.metadata run ∷ []) attempts r.1
      → Body (
          continue_with
            (λ _.
              finish_run_status run.thread_id run.run_id RunStatus.success none
              >>= after_stream run)
            r)
  attempts_end (Done.returns a, w) (attempt, n, h) =
      let data_events = take n (chunk_events (attempts attempt).chunks) in
      finished_ends (RunEvent.metadata run ∷ data_events) (inr (attempt, n, refl)) w
        (h.0 ∙ append_assoc log (RunEvent.metadata run ∷ []) data_events, h.1, h.2)
  attempts_end (Done.raises e, w) (attempt, n, h) =
      let data_events = take n (chunk_events (attempts attempt).chunks) in
      (
        RunEvent.metadata run ∷ data_events,
        inr (attempt, n, refl),
        (h.0 ∙ append_assoc log (RunEvent.metadata run ∷ []) data_events, h.1, h.2),
      )

  nothing_yet : (w : World) → Shows log attempts w → Shows (log ++ []) attempts w
  nothing_yet w h = (h.0 ∙ sym (append-nil log), h.1, h.2)

  -- The metadata and what follows it.
  streamed :
      (w : World)
      → Shows (log ++ []) attempts w
      → Body (
          (publish_event (RunEvent.metadata run)
              >> (attempt_loop stream_max_retries 0
                  >> (finish_run_status run.thread_id run.run_id RunStatus.success none
                      >>= after_stream run)))
            w)
  unfolding publish_event
  streamed w h =
      rw (h.1, publish_event)
        (attempts_end _ (
          attempt_loop-OneAttempt (log ++ RunEvent.metadata run ∷ []) attempts stream_max_retries 0
            (record w {
              published = w.published ++ RunEvent.metadata run ∷ [];
              stream_closed = false;
            })
            (ap (λ l. l ++ RunEvent.metadata run ∷ []) (h.0 ∙ append-nil log), refl, h.2)))

  claimed :
      (finalized : Option Outcome) (w : World)
      → Shows (log ++ []) attempts w
      → Body (after_stream_claim run finalized w)
  unfolding after_stream_claim
  claimed (some outcome) w h = outcome_ends [] (inl refl) outcome w h
  claimed none w h =
      silently [] (inl refl) (write_thread_status run.thread_id ThreadStatus.busy false) _
        (write_thread_status-Keeps shown shown-IsBlind run.thread_id ThreadStatus.busy false) w h
        (λ a w h. streamed w h)

  pub body_ends :
      (w : World)
      → Shows log attempts w
      → Body ((claim_run run.thread_id run.run_id >>= after_stream_claim run) w)
  body_ends w h =
      silently [] (inl refl) (claim_run run.thread_id run.run_id) (after_stream_claim run)
        (claim_run-Keeps shown shown-IsBlind run.thread_id run.run_id) w (nothing_yet w h) claimed
