-- ===== src/RunOps/Attempts.antt =====
-- ops/runs.py: what the attempts of a streaming run publish: the retries add to nothing.
use skeino.Base.{
  ℕ, zero, suc, Bool, true, false, ◌≡◌, refl, ap, subst, ◌∙◌, ◌&&◌, none, some, List, ◌++◌, ◌*◌,
  take, arith, ltb, Bool-cases, inl, inr,
}
use Prim.Native.Nat.{◌^◌}
use mathlib.Core.List.{append-nil}
use skeino.Text.{codes}
use skeino.Sse.Retries.{is_retriable_stream_error}
use skeino.RunEvents.{RunEvent}
use skeino.RunOps.{Done, World, Op, Attempt, continue_with}
use skeino.RunOps.Publishing.{
  pause, Attempted, stream_chunks, exception_text, after_attempt, attempt_loop,
}
use skeino.RunOps.Chunks.{
  Shows, kept-Shows, chunk_events, Streamed, unchanged, stream_chunks-Streamed, pause-Keeps,
}

-- The chunks that were published are the first ones of a single attempt.
abbrev pub OneAttempt : List RunEvent → (ℕ → Attempt) → World → Type 0
OneAttempt log attempts w =
    (attempt n : ℕ) × Shows (log ++ take n (chunk_events (attempts attempt).chunks)) attempts w

and_false : (b c : Bool) → (b && false && c) ≡ false
and_false b c = ground arith

module _ (log : List RunEvent) (attempts : ℕ → Attempt) (left seconds attempt : ℕ)
    (retry : Op (Unit {0}))
    (retries : (w : World) → Shows log attempts w → OneAttempt log attempts (retry w).1) where
  none_shown :
      (w : World) (n : ℕ)
      → Shows (log ++ take n (chunk_events (attempts attempt).chunks)) attempts w
      → n ≡ 0
      → Shows log attempts w
  none_shown w n h e = (
    h.0 ∙ ap (λ k. log ++ take k (chunk_events (attempts attempt).chunks)) e ∙ append-nil log,
    h.1,
    h.2,
  )

  retried :
      (r : Done (Unit {0}) × World)
      → Shows log attempts r.1
      → OneAttempt log attempts (continue_with (λ _. retry) r).1
  retried (Done.returns a, w) h = retries w h
  retried (Done.raises e, w) h = (attempt, zero, unchanged w h)

  after_attempt-OneAttempt :
      (r : Done Attempted × World)
      → Streamed log attempts (attempts attempt).chunks false r
      → OneAttempt log attempts (continue_with (after_attempt left seconds retry) r).1
  unfolding after_attempt
  after_attempt-OneAttempt (Done.returns (emitted, none), w) (n, h, k) = (attempt, n, h)
  after_attempt-OneAttempt (Done.returns (true, some exc), w) (n, h, k) =
      rw (and_false (ltb 0 left) _, after_attempt) (attempt, n, h)
  after_attempt-OneAttempt (Done.returns (false, some exc), w) (n, h, k) =
      let h' = none_shown w n h (k refl).1 in
      elim (Bool-cases
        (ltb 0 left && true && is_retriable_stream_error (codes (exception_text w exc)))) [
          | inl t ↦
              rw (t, after_attempt)
                (retried (pause w) (kept-Shows w (pause w).1 (pause-Keeps w) h'))
          | inr f ↦ rw (f, after_attempt) (attempt, zero, unchanged w h')
        ]
  after_attempt-OneAttempt (Done.raises e, w) (n, h) = (attempt, n, h)

pub attempt_loop-OneAttempt :
    (log : List RunEvent) (attempts : ℕ → Attempt) (left attempt : ℕ) (w : World)
    → Shows log attempts w
    → OneAttempt log attempts (attempt_loop left attempt w).1
unfolding attempt_loop
attempt_loop-OneAttempt log attempts zero attempt w h = (attempt, zero, unchanged w h)
attempt_loop-OneAttempt log attempts (suc left) attempt w h =
    let here = w.attempts in
    subst (λ a. OneAttempt log a (attempt_loop (suc left) attempt w).1) h.2
      (after_attempt-OneAttempt log here left (2 * 2 ^ attempt) attempt
        (attempt_loop left (suc attempt)) (attempt_loop-OneAttempt log here left (suc attempt))
        (stream_chunks (here attempt).chunks (here attempt).failure false w)
        (stream_chunks-Streamed log here (here attempt).chunks (here attempt).failure false w
          (h.0, h.1, refl)))
