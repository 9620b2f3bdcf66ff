-- ===== src/Examples/Producers.antt =====
-- A streaming run whose first attempt times out before it yields anything, and whose second attempt
-- yields two chunks and then loses its connection.
use skeino.Base.{
  ℕ, zero, suc, ◌≡◌, refl, Bool, true, false, none, some, List, [], ◌∷◌, if◌then◌else◌, ◌==◌,
}
use skeino.Json.{Json}
use skeino.Text.{codes}
use skeino.Schemas.{RunStatus}
use skeino.RunEvents.{TerminalEvent, RunEvent}
use skeino.RunOps.{Exn, Done, Fate, World, Attempt, return_op}
use skeino.RunOps.Outcomes.{calm_world}
use skeino.RunOps.Publishing.{publish_run, produce}
use skeino.RunOps.Terminal.{Final, publish_run_ends}
use skeino.RunOps.Producing.{Produced, produce_ends}
use skeino.Examples.Runs.{waiting, one_run}

abbrev two_attempts : ℕ → Attempt
two_attempts zero = record { chunks = []; failure = some (Exn.fault "Read Timeout") }
two_attempts (suc k) = record {
  chunks = (codes "values", Json.null) ∷ (codes "updates", Json.bool true) ∷ [];
  failure = some (Exn.fault "connection reset");
}

abbrev retried_world : World
retried_world = record (calm_world one_run 40 (Done.returns 7) false) { attempts = two_attempts }

-- The second failure comes after chunks, so it is not retried.
retried_events :
    (publish_run waiting retried_world).1.published
    ≡ RunEvent.metadata waiting
      ∷ RunEvent.chunk (codes "values") Json.null
      ∷ RunEvent.chunk (codes "updates") (Json.bool true)
      ∷ RunEvent.terminal (TerminalEvent.error_event 9 "connection reset") none
      ∷ []
unfolding publish_run skeino.RunOps.await_op skeino.Store.update_run_status
    skeino.Sse.Retries.is_retriable_stream_error skeino.Store.update_thread skeino.Base.put
retried_events = refl

-- The sixth await, the one for the second chunk, is cancelled.
abbrev cancelled_world : World
cancelled_world = record retried_world {
  moments = λ k. record {
    now = 40;
    meanwhile = λ s. s;
    fate = if k == 6 then Fate.lost Exn.cancelled else Fate.clear;
  };
}

cancelled_events :
    (produce waiting true (return_op tt) cancelled_world).1.published
    ≡ RunEvent.metadata waiting
      ∷ RunEvent.chunk (codes "values") Json.null
      ∷ RunEvent.terminal (TerminalEvent.end_event 9 RunStatus.interrupted) none
      ∷ []
unfolding produce skeino.RunOps.await_op skeino.Store.update_run_status
    skeino.Sse.Retries.is_retriable_stream_error skeino.Store.update_thread skeino.Base.put
cancelled_events = refl

publish_run_ends_example : Final [] two_attempts waiting (publish_run waiting retried_world)
publish_run_ends_example = publish_run_ends waiting retried_world refl

produce_ends_example :
    let r = produce waiting true (return_op tt) cancelled_world in
    (r.1.held ≡ false) × (r.1.stream_closed ≡ true) × Produced [] two_attempts waiting r
produce_ends_example = produce_ends waiting true (return_op tt) cancelled_world (λ w. refl) refl
