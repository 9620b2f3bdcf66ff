-- ===== src/StreamRegistry/Retention.antt =====
-- What the registry retains: how many finished streams, how long, and for whom.
use skeino.Base.{
  ℕ, ◌≤◌, ◌≡◌, Option, none, some, List, [], ◌∷◌, arith, length, Option-cases, inl, inr, Dict, get,
  put,
}
use skeino.Stream.{RunEventStream, closed}
use skeino.Stream
use skeino.StreamRegistry.{
  RunStreamRegistry, unmap, sweep, scoped, get_stream, trim, trimmed, retire, close_stream,
}

length-trim :
    (m : ℕ) (heap : Dict RunEventStream) (expiry : List ℕ) (streams : Dict ℕ)
    → length (trim m heap expiry streams).0 ≤ m
unfolding trim
length-trim m heap [] streams = omega arith
length-trim m heap (ref ∷ expiry) streams =
    ground (arith, length-trim m heap expiry (unmap heap ref streams))

pub length-trimmed :
    (r : RunStreamRegistry) → length (trimmed r).expiry ≤ (trimmed r).max_retained_streams
unfolding trimmed
length-trimmed r = length-trim r.max_retained_streams r.heap r.expiry r.streams

-- After a close no more than `max_retained_streams` finished streams wait for their expiry.
pub length-expiry-close_stream :
    (now now' : ℕ) (r : RunStreamRegistry) (ref : ℕ) (stream : RunEventStream)
    → get r.heap ref ≡ some stream
    → length (close_stream now now' r ref).expiry
      ≤ (close_stream now now' r ref).max_retained_streams
unfolding close_stream
length-expiry-close_stream now now' r ref stream e =
    let l = length-trimmed (
      sweep now'
        (retire (record r { heap = put r.heap ref (Stream.close stream now) }) ref stream)) in
    rw (e, close_stream) l

scoped_lem :
    (heap : Dict RunEventStream) (thread_id ref : ℕ) (stream : RunEventStream) (found : Option ℕ)
    → scoped heap thread_id found ≡ some (ref, stream)
    → (found ≡ some ref) × (get heap ref ≡ some stream) × (stream.thread_id ≡ thread_id)
unfolding scoped
scoped_lem heap t ref stream none h = absurd (cc)
scoped_lem heap t ref stream (some j) h = elim (Option-cases (get heap j)) [
  | inl e ↦ absurd (ground (arith, h, e))
  | inr (found, e) ↦ ground arith
]

-- A lookup under a run id finds only a stream that is mapped there and belongs to the thread that
-- asked: a run id under the wrong thread leaks nothing.
get_stream_scoped :
    (now : ℕ) (r : RunStreamRegistry) (thread_id run_id ref : ℕ) (stream : RunEventStream)
    → (get_stream now r thread_id run_id).0 ≡ some (ref, stream)
    → (stream.thread_id ≡ thread_id)
      × (get (sweep now r).streams run_id ≡ some ref)
      × (get (sweep now r).heap ref ≡ some stream)
unfolding get_stream
get_stream_scoped now r thread_id run_id ref stream h =
    let l =
      scoped_lem (sweep now r).heap thread_id ref stream (get (sweep now r).streams run_id) h in
    (l.2, l.0, l.1)
