-- ===== src/RunOps/Chunks.antt =====
-- ops/runs.py: what one attempt of a streaming run publishes, whatever happens at its awaits.
use skeino.Base.{
  ℕ, zero, suc, Bool, true, false, ◌≡◌, refl, sym, ap, ◌∙◌, Option, none, some, List, [], ◌∷◌, ◌++◌,
  map, take,
}
use mathlib.Core.List.{append_assoc, append-nil}
use skeino.Json.{Json}
use skeino.Text.{Text}
use skeino.RunEvents.{RunEvent}
use skeino.RunOps.{
  Exn, Done, World, Op, return_op, ◌>>=◌, ◌>>◌, Attempt, continue_with, handle_with,
}
use skeino.RunOps.Publishing.{
  publish_event, catch_exception, caught, pause, Attempted, after_publish, stream_chunks,
}
use skeino.RunOps.Views.{IsBlind, Keeps, await-Keeps}

-- The run's stream is open with those events published, and the attempts are still those.
abbrev pub Shows : List RunEvent → (ℕ → Attempt) → World → Type 0
Shows log attempts w = (w.published ≡ log) × (w.stream_closed ≡ false) × (w.attempts ≡ attempts)

-- An operation that changes neither leaves it shown.
pub Shown : Type 0
Shown = List RunEvent × Bool × (ℕ → Attempt)

abbrev pub shown : World → List RunEvent × Bool × (ℕ → Attempt)
shown w = (w.published, w.stream_closed, w.attempts)

pub kept-Shows :
    {log : List RunEvent} {attempts : ℕ → Attempt} (w w' : World)
    → shown w' ≡ shown w
    → Shows log attempts w
    → Shows log attempts w'
kept-Shows w w' e h = (ap (λ p. p.0) e ∙ h.0, ap (λ p. p.1) e ∙ h.1, ap (λ p. p.2) e ∙ h.2)

pub shown-IsBlind : IsBlind shown
shown-IsBlind w s k u = refl

-- What `publish_event` does on an open stream.
pub publish_event-Shows :
    {log : List RunEvent} {attempts : ℕ → Attempt} (event : RunEvent) (w : World)
    → Shows log attempts w
    → ((publish_event event w).0 ≡ Done.returns tt)
      × Shows (log ++ event ∷ []) attempts (publish_event event w).1
unfolding publish_event
publish_event-Shows event w h =
    rw (h.1, publish_event) (refl, (ap (λ l. l ++ event ∷ []) h.0, refl, h.2))

pub pause-Keeps : Keeps shown pause
unfolding pause
pause-Keeps = await-Keeps shown shown-IsBlind (λ now w. (tt, w)) (λ now w. refl)

module _ (log : List RunEvent) (attempts : ℕ → Attempt) where
  -- How a caught await, or one that a chunk's publication follows, leaves the stream.
  abbrev Paused : {A : Type 0} → Done A × World → Type 0
  Paused (Done.returns o, w) = Shows log attempts w
  Paused (Done.raises e, w) = Shows log attempts w

  abbrev ChunkPublished : RunEvent → Done (Option Exn) × World → Type 0
  ChunkPublished event (Done.returns none, w) = Shows (log ++ event ∷ []) attempts w
  ChunkPublished event (Done.returns (some exc), w) = Shows log attempts w
  ChunkPublished event (Done.raises e, w) = Shows log attempts w

  paused : {A : Type 0} (r : Done A × World) → Shows log attempts r.1 → Paused r
  paused (Done.returns a, w) h = h
  paused (Done.raises e, w) h = h

  caught_result :
      (r : Done (Unit {0}) × World)
      → Shows log attempts r.1
      → Paused (handle_with catch_exception (continue_with (λ _. return_op none) r))
  unfolding catch_exception
  caught_result (Done.returns a, w) h = h
  caught_result (Done.raises (Exn.http e), w) h = h
  caught_result (Done.raises (Exn.fault text), w) h = h
  caught_result (Done.raises Exn.cancelled, w) h = h

  pub caught-pause : (w : World) → Shows log attempts w → Paused (caught pause w)
  unfolding caught
  caught-pause w h = caught_result (pause w) (kept-Shows w (pause w).1 (pause-Keeps w) h)

  chunk_result :
      (event : RunEvent) (r : Done (Unit {0}) × World)
      → Shows log attempts r.1
      → ChunkPublished event (
          handle_with catch_exception
            (continue_with (λ _. return_op none) (continue_with (λ _. publish_event event) r)))
  unfolding catch_exception publish_event
  chunk_result event (Done.returns a, w) h =
      rw (h.1, publish_event) (ap (λ l. l ++ event ∷ []) h.0, refl, h.2)
  chunk_result event (Done.raises (Exn.http e), w) h = h
  chunk_result event (Done.raises (Exn.fault text), w) h = h
  chunk_result event (Done.raises Exn.cancelled, w) h = h

  pub caught-publish_event :
      (event : RunEvent) (w : World)
      → Shows log attempts w
      → ChunkPublished event (caught (pause >> publish_event event) w)
  unfolding caught
  caught-publish_event event w h =
      chunk_result event (pause w) (kept-Shows w (pause w).1 (pause-Keeps w) h)

-- The events of an attempt's chunks.
abbrev pub chunk_events : List (Text × Json) → List RunEvent
chunk_events = map (λ p. RunEvent.chunk p.0 p.1)

-- A prefix of the chunks was published, and none if `emitted_data` is still false.
abbrev pub Streamed :
    List RunEvent → (ℕ → Attempt) → List (Text × Json) → Bool → Done Attempted × World → Type 0
Streamed log attempts chunks emitted (Done.returns (emitted', exc), w) =
    (n : ℕ) × Shows (log ++ take n (chunk_events chunks)) attempts w
    × (emitted' ≡ false → (emitted ≡ false) × (n ≡ 0))
Streamed log attempts chunks emitted (Done.raises e, w) =
    (n : ℕ) × Shows (log ++ take n (chunk_events chunks)) attempts w

pub unchanged :
    {log : List RunEvent} {attempts : ℕ → Attempt} (w : World)
    → Shows log attempts w
    → Shows (log ++ []) attempts w
unchanged {log} w h = (h.0 ∙ sym (append-nil log), h.1, h.2)

module _ (log : List RunEvent) (attempts : ℕ → Attempt) (emitted : Bool) where
  -- What follows the pause after the last chunk.
  abbrev at_end : Option Exn → Option Exn → Op Attempted
  at_end failure (some exc) = return_op (emitted, some exc)
  at_end none none = return_op (emitted, none)
  at_end (some exc) none = do exc' ← catch_exception exc; return_op (emitted, exc')

  ended :
      (failure : Option Exn) (r : Done (Option Exn) × World)
      → Paused log attempts r
      → Streamed log attempts [] emitted (continue_with (at_end failure) r)
  unfolding catch_exception
  ended failure (Done.returns (some exc), w) h = (zero, unchanged w h, λ e. (e, refl))
  ended none (Done.returns none, w) h = (zero, unchanged w h, λ e. (e, refl))
  ended (some (Exn.http e)) (Done.returns none, w) h = (zero, unchanged w h, λ e. (e, refl))
  ended (some (Exn.fault e)) (Done.returns none, w) h = (zero, unchanged w h, λ e. (e, refl))
  ended (some Exn.cancelled) (Done.returns none, w) h = (zero, unchanged w h)
  ended failure (Done.raises e, w) h = (zero, unchanged w h)

stream_end :
    (log : List RunEvent) (attempts : ℕ → Attempt) (failure : Option Exn) (emitted : Bool)
    (w : World)
    → Shows log attempts w
    → Streamed log attempts [] emitted (stream_chunks [] failure emitted w)
unfolding stream_chunks
stream_end log attempts none emitted w h =
    ended log attempts emitted none (caught pause w) (caught-pause log attempts w h)
stream_end log attempts (some exc) emitted w h =
    ended log attempts emitted (some exc) (caught pause w) (caught-pause log attempts w h)

module _ (log : List RunEvent) (attempts : ℕ → Attempt) (name : Text) (payload : Json)
    (chunks : List (Text × Json)) (emitted : Bool) where
  -- What the rest of the chunks publishes comes after the first one.
  after_first :
      (r : Done Attempted × World)
      → Streamed (log ++ RunEvent.chunk name payload ∷ []) attempts chunks true r
      → Streamed log attempts ((name, payload) ∷ chunks) emitted r
  after_first (Done.returns (emitted', exc), w) (n, h, k) = (
    suc n,
    (
      h.0 ∙ append_assoc log (RunEvent.chunk name payload ∷ []) (take n (chunk_events chunks)),
      h.1,
      h.2,
    ),
    λ e. absurd (cc ((k e).0)),
  )
  after_first (Done.raises e, w) (n, h) = (
    suc n,
    (
      h.0 ∙ append_assoc log (RunEvent.chunk name payload ∷ []) (take n (chunk_events chunks)),
      h.1,
      h.2,
    ),
  )

  module _ (rest : Op Attempted)
      (streams : (w : World)
        → Shows (log ++ RunEvent.chunk name payload ∷ []) attempts w
        → Streamed (log ++ RunEvent.chunk name payload ∷ []) attempts chunks true (rest w)) where
    abbrev slept : Option Exn → Op Attempted
    slept (some exc) = return_op (true, some exc)
    slept none = rest

    after_sleep :
        (r : Done (Option Exn) × World)
        → Paused (log ++ RunEvent.chunk name payload ∷ []) attempts r
        → Streamed log attempts ((name, payload) ∷ chunks) emitted (continue_with slept r)
    after_sleep (Done.returns (some exc), w) h = (suc zero, h, λ e. absurd (cc e))
    after_sleep (Done.returns none, w) h = after_first (rest w) (streams w h)
    after_sleep (Done.raises e, w) h = (suc zero, h)

    after_chunk :
        (r : Done (Option Exn) × World)
        → ChunkPublished log attempts (RunEvent.chunk name payload) r
        → Streamed log attempts
            ((name, payload) ∷ chunks)
            emitted
            (continue_with (after_publish rest emitted) r)
    unfolding after_publish
    after_chunk (Done.returns (some exc), w) h = (zero, unchanged w h, λ e. (e, refl))
    after_chunk (Done.returns none, w) h =
        after_sleep (caught pause w)
          (caught-pause (log ++ RunEvent.chunk name payload ∷ []) attempts w h)
    after_chunk (Done.raises e, w) h = (zero, unchanged w h)

pub stream_chunks-Streamed :
    (log : List RunEvent) (attempts : ℕ → Attempt) (chunks : List (Text × Json))
    (failure : Option Exn) (emitted : Bool) (w : World)
    → Shows log attempts w
    → Streamed log attempts chunks emitted (stream_chunks chunks failure emitted w)
unfolding stream_chunks
stream_chunks-Streamed log attempts [] failure emitted w h =
    stream_end log attempts failure emitted w h
stream_chunks-Streamed log attempts ((name, payload) ∷ chunks) failure emitted w h =
    after_chunk log attempts name payload chunks emitted (stream_chunks chunks failure true)
      (stream_chunks-Streamed (log ++ RunEvent.chunk name payload ∷ []) attempts chunks failure
        true)
      (caught (pause >> publish_event (RunEvent.chunk name payload)) w)
      (caught-publish_event log attempts (RunEvent.chunk name payload) w h)
