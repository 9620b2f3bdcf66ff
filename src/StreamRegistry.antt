-- ===== src/StreamRegistry.antt =====
-- streaming/run_streams.py, RunStreamRegistry: the streams of the process by run id, with the
-- retention of finished ones. A stream is an object that several places share, so it stands on a
-- heap under a reference, and the code's `is` compares references. The clock is read at each call;
-- times and the retention are in its ticks, and a retention of 0 stands for every one that is not
-- positive.
pub mod Retention
pub mod Accounting
pub mod Calls
pub mod Traffic
use skeino.Base.{
  ℕ, suc, ◌-◌, Bool, true, false, not, ◌||◌, Option, none, some, List, [], ◌∷◌, ◌++◌, ◌==◌, ltb,
  leb, if◌then◌else◌, length, Dict, get, put, remove,
}
use skeino.Stream
use skeino.Stream.{RunEventStream, new_stream, closed}

pub record RunStreamRegistry : Type 0 where
  pub retention : ℕ
  pub max_retained_streams : ℕ
  pub max_history_events : ℕ
  pub max_history_bytes : ℕ
  pub streams : Dict ℕ
  pub expiry : List ℕ
  pub heap : Dict RunEventStream
  pub next_ref : ℕ

-- __init__, with a bound that is not negative
unfoldable pub new_registry : ℕ → ℕ → ℕ → ℕ → RunStreamRegistry
new_registry retention max_retained max_events max_bytes = record {
  retention = retention;
  max_retained_streams = max_retained;
  max_history_events = max_events;
  max_history_bytes = max_bytes;
  streams = [];
  expiry = [];
  heap = [];
  next_ref = 0;
}

-- Both places that drop a stream: it is unmapped if the map still holds this very object.
unfoldable pub unmap : Dict RunEventStream → ℕ → Dict ℕ → Dict ℕ
unmap heap ref streams = elim (get heap ref) [
  | none ↦ streams
  | some stream ↦ elim (get streams stream.run_id) [
    | none ↦ streams
    | some current ↦ if current == ref then remove streams stream.run_id else streams
  ]
]

-- `stream.closed_at is None or now - stream.closed_at < self._retention`
unfoldable pub still_fresh : ℕ → ℕ → RunEventStream → Bool
still_fresh now retention stream = elim stream.closed_at [
  | none ↦ true
  | some t ↦ ltb (now - t) retention
]

abbrev pub fresh_ref : ℕ → ℕ → Dict RunEventStream → ℕ → Bool
fresh_ref now retention heap ref = elim (get heap ref) [
  | none ↦ true
  | some stream ↦ still_fresh now retention stream
]

-- The loop of `_sweep`, over the queue of finished streams.
unfoldable pub sweep_loop : ℕ → ℕ → Dict RunEventStream → List ℕ → Dict ℕ → List ℕ × Dict ℕ
unfolding still_fresh unmap
sweep_loop now retention heap [] streams = ([], streams)
sweep_loop now retention heap (ref ∷ expiry) streams =
    let rest = sweep_loop now retention heap expiry (unmap heap ref streams) in
    if fresh_ref now retention heap ref then (ref ∷ expiry, streams) else rest

unfoldable pub sweep : ℕ → RunStreamRegistry → RunStreamRegistry
unfolding sweep_loop
sweep now r =
    let (expiry, streams) = sweep_loop now r.retention r.heap r.expiry r.streams in
    record r { expiry = expiry; streams = streams }

-- The new stream's reference, and the registry.
unfoldable pub open_stream : ℕ → RunStreamRegistry → ℕ → ℕ → Bool → ℕ × RunStreamRegistry
unfolding sweep
open_stream now r thread_id run_id resumable =
    let r' = sweep now r in
    let stream = new_stream thread_id run_id resumable r'.max_history_events r'.max_history_bytes in
    let ref = r'.next_ref in
    (
      ref,
      record r' {
        streams = put r'.streams run_id ref;
        heap = put r'.heap ref stream;
        next_ref = suc ref;
      },
    )

-- The reference that a map entry leads to, if the stream is the thread's.
unfoldable pub scoped : Dict RunEventStream → ℕ → Option ℕ → Option (ℕ × RunEventStream)
scoped heap thread_id none = none
scoped heap thread_id (some ref) = elim (get heap ref) [
  | none ↦ none
  | some stream ↦ if stream.thread_id == thread_id then some (ref, stream) else none
]

unfoldable pub get_stream :
    ℕ → RunStreamRegistry → ℕ → ℕ → Option (ℕ × RunEventStream) × RunStreamRegistry
unfolding sweep scoped
get_stream now r thread_id run_id =
    let r' = sweep now r in (scoped r'.heap thread_id (get r'.streams run_id), r')

-- The last loop of `close`.
unfoldable pub trim : ℕ → Dict RunEventStream → List ℕ → Dict ℕ → List ℕ × Dict ℕ
unfolding unmap
trim max_retained heap [] streams = ([], streams)
trim max_retained heap (ref ∷ expiry) streams =
    let rest = trim max_retained heap expiry (unmap heap ref streams) in
    if ltb max_retained (length (ref ∷ expiry)) then rest else (ref ∷ expiry, streams)

-- Where a stream goes when it closes: dropped at once, or queued for expiry the first time.
unfoldable pub retire : RunStreamRegistry → ℕ → RunEventStream → RunStreamRegistry
retire r ref stream =
    if not stream.resumable || r.retention == 0
    then record r { streams = remove r.streams stream.run_id }
    else if not (closed stream)
    then record r { expiry = r.expiry ++ ref ∷ [] }
    else r

unfoldable pub trimmed : RunStreamRegistry → RunStreamRegistry
unfolding trim
trimmed r =
    let (expiry, streams) = trim r.max_retained_streams r.heap r.expiry r.streams in
    record r { expiry = expiry; streams = streams }

-- `now` is the reading for the stream, `now'` that of the sweep.
unfoldable pub close_stream : ℕ → ℕ → RunStreamRegistry → ℕ → RunStreamRegistry
unfolding retire sweep trimmed
close_stream now now' r ref = elim (get r.heap ref) [
  | none ↦ r
  | some stream ↦
      let r₁ = record r { heap = put r.heap ref (Stream.close stream now) } in
      trimmed (sweep now' (retire r₁ ref stream))
]
