-- ===== src/RunOps/Producing.antt =====
-- ops/runs.py: the producer's task of a streaming run with its finalizer.
use skeino.Base.{
  ℕ, Bool, true, false, ◌≡◌, refl, sym, ◌⊎◌, inl, inr, Option, none, some, List, [], ◌∷◌, ◌++◌,
}
use mathlib.Core.List.{append-nil}
use skeino.Schemas.{RunStatus, RunRow}
use skeino.RunEvents.{TerminalEvent, RunEvent}
use skeino.RunOps.{Exn, Done, World, Op, Attempt, continue_with}
use skeino.RunOps.Writes.{Outcome, mark_run_interrupted}
use skeino.RunOps.Requests.{terminal_event_for_row}
use skeino.RunOps.Execution.{settle_again}
use skeino.RunOps.Publishing.{
  publish_outcome, publish_interruption, interrupted_stream, finalize_run, finish, is_cancelled,
  publish_run, produce,
}
use skeino.RunOps.Chunks.{Shows, shown, kept-Shows, shown-IsBlind}
use skeino.RunOps.Bodies.{IsData, HasEnded, HasNotEnded, Body, silently, publication_ends}
use skeino.RunOps.Terminal.{Final, publish_run_ends}
use skeino.RunOps.Views.{Keeps, mark_run_interrupted-Keeps, settle_again-Keeps}

module _ (log : List RunEvent) (attempts : ℕ → Attempt) (run : RunRow) where
  -- One terminal event, the last; or none yet.
  abbrev pub EndedLog : List RunEvent → Type 0
  EndedLog l =
      (events : List RunEvent) × (event : TerminalEvent) × (tokens : Option ℕ) × IsData run attempts
        events
      × (l ≡ log ++ (events ++ RunEvent.terminal event tokens ∷ []))

  abbrev pub OpenLog : List RunEvent → Type 0
  OpenLog l = (events : List RunEvent) × IsData run attempts events × (l ≡ log ++ events)

  -- Ended if the finalizer returned; otherwise ended or not.
  abbrev pub Produced : Done (Unit {0}) × World → Type 0
  Produced (Done.returns a, w) = EndedLog w.published
  Produced (Done.raises e, w) = EndedLog w.published ⊎ OpenLog w.published

  abbrev Closing : Done (Unit {0}) × World → Type 0
  Closing (Done.returns a, w) = HasEnded log attempts run w
  Closing (Done.raises e, w) = HasEnded log attempts run w ⊎ HasNotEnded log attempts run w

  ended_log : (w : World) → HasEnded log attempts run w → EndedLog w.published
  ended_log w (events, event, tokens, d, h) = (events, event, tokens, d, h.0)

  open_log : (w : World) → HasNotEnded log attempts run w → OpenLog w.published
  open_log w (events, d, h) = (events, d, h.0)

  closing_produced : (r : Done (Unit {0}) × World) → Closing r → Produced (finish r)
  closing_produced (Done.returns a, w) c = ended_log w c
  closing_produced (Done.raises e, w) (inl c) = inl (ended_log w c)
  closing_produced (Done.raises e, w) (inr c) = inr (open_log w c)

  interruption_ends :
      (events : List RunEvent) (d : IsData run attempts events) (superseded : Option Outcome)
      (w : World)
      → Shows (log ++ events) attempts w
      → Body log attempts run (publish_interruption run superseded w)
  unfolding publish_interruption publish_outcome
  interruption_ends events d none w h =
      publication_ends log attempts run events d
        (TerminalEvent.end_event run.run_id RunStatus.interrupted) none w h
  interruption_ends events d (some outcome) w h =
      silently log attempts run events d (settle_again run.thread_id (some outcome)) _
        (settle_again-Keeps shown shown-IsBlind run.thread_id (some outcome)) w h
        (λ a w h.
          publication_ends log attempts run events d
            (terminal_event_for_row w.deleted_text run.run_id outcome) none w h)

  interrupted_ends :
      (w : World)
      → HasNotEnded log attempts run w
      → Body log attempts run (interrupted_stream run true w)
  unfolding interrupted_stream
  interrupted_ends w (events, d, h) =
      silently log attempts run events d (mark_run_interrupted run.run_id run.thread_id)
        (publish_interruption run)
        (mark_run_interrupted-Keeps shown shown-IsBlind run.run_id run.thread_id) w h
        (interruption_ends events d)

  module _ (after_run : Op (Unit {0})) (quiet : Keeps shown after_run) where
    ended_result : (r : Done (Unit {0}) × World) → HasEnded log attempts run r.1 → Closing r
    ended_result (Done.returns a, w) c = c
    ended_result (Done.raises e, w) c = inl c

    kept_ended :
        (w : World) → HasEnded log attempts run w → HasEnded log attempts run (after_run w).1
    kept_ended w (events, event, tokens, d, h) =
        (events, event, tokens, d, kept-Shows w (after_run w).1 (quiet w) h)

    cleaned_up :
        (r : Done (Unit {0}) × World)
        → Body log attempts run r
        → Closing (continue_with (λ _. after_run) r)
    cleaned_up (Done.returns a, w) b = ended_result (after_run w) (kept_ended w b)
    cleaned_up (Done.raises e, w) b = inr b

    finalized_cancelled :
        (w : World) → HasNotEnded log attempts run w → Produced (finalize_run run true after_run w)
    unfolding finalize_run
    finalized_cancelled w c =
        closing_produced _ (cleaned_up (interrupted_stream run true w) (interrupted_ends w c))

    finalized :
        (r : Done ℕ × World)
        → Final log attempts run r
        → Produced (finalize_run run (is_cancelled r.0) after_run r.1)
    unfolding finalize_run interrupted_stream
    finalized (Done.returns n, w) c =
        closing_produced _ (ended_result (after_run w) (kept_ended w c))
    finalized (Done.raises Exn.cancelled, w) c = finalized_cancelled w c.1
    finalized (Done.raises (Exn.fault text), w) c = absurd (cc (c.0))
    finalized (Done.raises (Exn.http e), w) c = absurd (cc (c.0))

produced_released :
    (run : RunRow) (cancelled : Bool) (after_run : Op (Unit {0})) (w : World)
    → let w' = (finalize_run run cancelled after_run w).1 in
      (w'.held ≡ false) × (w'.stream_closed ≡ true)
unfolding finalize_run
produced_released run cancelled after_run w = (refl, refl)

-- The whole life of a streaming run's task, whether it is cancelled before its first step, later or not
-- at all, whatever fails or is cancelled at any await of the task or of its finalizer, and whatever
-- others do to the store: in the end the execution lock is released and the stream closed. If the
-- finalizer returns, the stream got exactly one terminal event, as its last one, after nothing or the
-- metadata and the first chunks of a single attempt; if it raises, at most one. The cleanup that runs
-- after the run is assumed to publish nothing.
pub produce_ends :
    (run : RunRow) (started : Bool) (after_run : Op (Unit {0})) (w : World)
    → Keeps shown after_run
    → w.stream_closed ≡ false
    → let r = produce run started after_run w in
      (r.1.held ≡ false) × (r.1.stream_closed ≡ true) × Produced w.published w.attempts run r
unfolding produce
produce_ends run true after_run w quiet h =
    let r = publish_run run w in
    let l = produced_released run (is_cancelled r.0) after_run r.1 in
    (
      l.0,
      l.1,
      finalized w.published w.attempts run after_run quiet (publish_run run w)
          (publish_run_ends run w h),
    )
produce_ends run false after_run w quiet h =
    let l = produced_released run true after_run w in
    (
      l.0,
      l.1,
      finalized_cancelled w.published w.attempts run after_run quiet w
          ([], inl refl, (sym (append-nil w.published), h, refl)),
    )
