-- ===== src/Stream.antt =====
-- streaming/run_streams.py, RunEventStream: the fan-out and the replay history of one run. A
-- subscriber's asyncio.Queue is filed by a number under which its drain finds it again; the queue
-- of a detached subscriber stays filed, as the object outlives its place in `_subscribers`.
pub mod Log
pub mod History
pub mod FanOut
pub mod Delivery
pub mod Next
pub mod Tracking
pub mod Closing
use skeino.Base.{
  ℕ, zero, suc, ◌+◌, ◌-◌, Bool, true, false, not, ◌&&◌, ◌||◌, Option, none, some, List, [], ◌∷◌,
  ◌++◌, ◌==◌, ltb, leb, if◌then◌else◌, length, keep, is_empty, Dict, get, put, remove,
}
use skeino.Json.{Json}
use skeino.Text.{Text, codes, text_elem, starts_with, partition, utf8_length}
use skeino.Sse.{sse_event}

-- _LIFECYCLE_EVENTS
abbrev lifecycle_events : List Text
lifecycle_events = codes "metadata" ∷ codes "error" ∷ codes "end" ∷ []

unfoldable pub stream_mode_matches : Text → List Text → Bool
unfolding text_elem starts_with partition
stream_mode_matches event stream_modes =
    if is_empty stream_modes || text_elem event lifecycle_events || text_elem event stream_modes
    then true
    else if starts_with event (codes "messages")
        && (text_elem (codes "messages") stream_modes
            || text_elem (codes "messages-tuple") stream_modes)
    then true
    else let (base, sep) = partition 0x7c event in sep && text_elem base stream_modes

pub record StreamEvent : Type 0 where
  pub event_id : ℕ
  pub event : Text
  pub frame : Text

-- What a subscriber's queue holds: an event, SubscriberOverflowError, or None.
pub data Item : Type 0 where
  published : StreamEvent → Item
  overflow finished : Item

pub record RunEventStream : Type 0 where
  pub thread_id : ℕ
  pub run_id : ℕ
  pub resumable : Bool
  pub closed_at : Option ℕ
  pub next_id : ℕ
  pub history : List StreamEvent
  pub history_bytes : ℕ
  pub evicted_through_id : ℕ
  pub max_history_events : ℕ
  pub max_history_bytes : ℕ
  pub subscribers : Dict (List Text)
  pub queues : Dict (List Item)
  pub next_queue : ℕ

-- _SUBSCRIBER_QUEUE_SIZE
abbrev pub subscriber_queue_size : ℕ
subscriber_queue_size = 256

-- __init__
unfoldable pub new_stream : ℕ → ℕ → Bool → ℕ → ℕ → RunEventStream
new_stream thread_id run_id resumable max_history_events max_history_bytes = record {
  thread_id = thread_id;
  run_id = run_id;
  resumable = resumable;
  closed_at = none;
  next_id = 1;
  history = [];
  history_bytes = 0;
  evicted_through_id = 0;
  max_history_events = max_history_events;
  max_history_bytes = max_history_bytes;
  subscribers = [];
  queues = [];
  next_queue = 0;
}

abbrev pub closed : RunEventStream → Bool
closed s = elim s.closed_at [ none ↦ false | some t ↦ true ]

abbrev pub last_event_id : RunEventStream → ℕ
last_event_id s = s.next_id - 1

abbrev pub queue_of : RunEventStream → ℕ → List Item
queue_of s q = elim (get s.queues q) [ none ↦ [] | some items ↦ items ]

abbrev pub frame_bytes : StreamEvent → ℕ
frame_bytes e = utf8_length e.frame

-- The history with its size in bytes and the id up to which it was evicted.
pub record Retained : Type 0 where
  pub events : List StreamEvent
  pub bytes : ℕ
  pub evicted_through : ℕ

abbrev pub over_limit : ℕ → ℕ → List StreamEvent → ℕ → Bool
over_limit max_events max_bytes events bytes = ltb max_events (length events) || ltb max_bytes bytes

-- The `while` loop of `publish`: it pops one event of the history in each round.
unfoldable pub evict : ℕ → ℕ → List StreamEvent → ℕ → ℕ → Retained
evict max_events max_bytes [] bytes through = record {
  events = [];
  bytes = bytes;
  evicted_through = through;
}
evict max_events max_bytes (e ∷ events) bytes through =
    let rest = evict max_events max_bytes events (bytes - frame_bytes e) e.event_id in
    if over_limit max_events max_bytes (e ∷ events) bytes
    then rest
    else record { events = e ∷ events; bytes = bytes; evicted_through = through }

-- _detach: the queue is emptied and holds the overflow error
unfoldable pub detach_lagging : RunEventStream → ℕ → RunEventStream
detach_lagging s q = record s {
  subscribers = remove s.subscribers q;
  queues = put s.queues q (Item.overflow ∷ []);
}

-- queue.put_nowait(item)
unfoldable pub put_nowait : RunEventStream → ℕ → Item → RunEventStream
put_nowait s q item = record s { queues = put s.queues q (queue_of s q ++ item ∷ []) }

-- queue.full()
abbrev pub full : RunEventStream → ℕ → Bool
full s q = leb subscriber_queue_size (length (queue_of s q))

-- One round of the fan-out loop of `publish`.
unfoldable pub deliver : StreamEvent → RunEventStream → ℕ → List Text → RunEventStream
unfolding detach_lagging put_nowait stream_mode_matches
deliver e s q stream_modes =
    if not (stream_mode_matches e.event stream_modes)
    then s
    else if full s q
    then detach_lagging s q
    else put_nowait s q (Item.published e)

unfoldable pub fan_out : StreamEvent → RunEventStream → Dict (List Text) → RunEventStream
unfolding deliver
fan_out e s [] = s
fan_out e s ((q, stream_modes) ∷ subscribers) = fan_out e (deliver e s q stream_modes) subscribers

unfoldable pub record_history : StreamEvent → RunEventStream → RunEventStream
unfolding evict
record_history e s =
    if s.resumable
    then (let h =
          evict s.max_history_events s.max_history_bytes (s.history ++ e ∷ [])
            (s.history_bytes + frame_bytes e) s.evicted_through_id in
        record s {
          history = h.events;
          history_bytes = h.bytes;
          evicted_through_id = h.evicted_through;
        })
    else s

-- The event that `publish` builds.
unfoldable pub stamped : RunEventStream → Text → Json → StreamEvent
unfolding sse_event
stamped s event payload = record {
  event_id = s.next_id;
  event = event;
  frame = sse_event event payload (some s.next_id);
}

-- none: RuntimeError, the stream is already closed
unfoldable pub publish : RunEventStream → Text → Json → Option (StreamEvent × RunEventStream)
unfolding stamped record_history fan_out
publish s event payload =
    if closed s
    then none
    else let e = stamped s event payload in
      let s' = record_history e (record s { next_id = s.next_id + 1 }) in
      some (e, fan_out e s' s'.subscribers)

unfoldable pub cursor_expired : RunEventStream → ℕ → Bool
cursor_expired s after = ltb 0 s.evicted_through_id && ltb after s.evicted_through_id

-- The loop of `close`, over the subscribers.
unfoldable pub release_all : RunEventStream → Dict (List Text) → RunEventStream
unfolding put_nowait
release_all s [] = s
release_all s ((q, stream_modes) ∷ subscribers) =
    release_all (if full s q then s else put_nowait s q Item.finished) subscribers

unfoldable pub close : RunEventStream → ℕ → RunEventStream
unfolding release_all
close s now = if closed s then s else release_all (record s { closed_at = some now }) s.subscribers

-- The snapshot of `_attach`.
unfoldable pub replay_of : RunEventStream → Option ℕ → List Text → List StreamEvent
unfolding stream_mode_matches
replay_of s none stream_modes = []
replay_of s (some after) stream_modes =
    keep (λ e. ltb after e.event_id && stream_mode_matches e.event stream_modes) s.history

unfoldable pub attach :
    RunEventStream → Option ℕ → List Text → List StreamEvent × ℕ × RunEventStream
unfolding replay_of
attach s after stream_modes =
    let q = s.next_queue in
    (
      replay_of s after stream_modes,
      q,
      if closed s
          then record s { queues = put s.queues q (Item.finished ∷ []); next_queue = suc q }
          else record s {
            subscribers = put s.subscribers q stream_modes;
            queues = put s.queues q [];
            next_queue = suc q;
          },
    )

-- A subscription's iterator: the local variables of `_drain`.
pub record Drain : Type 0 where
  pub replay : List StreamEvent
  pub queue : ℕ
  pub delivered : ℕ
  pub stream_modes : List Text

unfoldable pub subscribe : RunEventStream → Option ℕ → List Text → Drain × RunEventStream
unfolding attach
subscribe s after stream_modes =
    let (replay, q, s') = attach s after stream_modes in
    (
      record {
        replay = replay;
        queue = q;
        delivered = elim after [ none ↦ last_event_id s | some n ↦ n ];
        stream_modes = stream_modes;
      },
      s',
    )

-- `detach`, of an iterator that was never started
unfoldable pub detach : RunEventStream → Drain → RunEventStream
detach s d = record s { subscribers = remove s.subscribers d.queue }

-- What one `__anext__` of the iterator comes to: an event, a wait for the queue with the iterator
-- as it then stands, the end, or SubscriberOverflowError.
pub data Outcome : Type 0 where
  yields : StreamEvent → Drain → Outcome
  waits : Drain → Outcome
  ends raises : Outcome

-- The `finally` clause: the queue is no subscriber any more.
abbrev pub finally_pop : RunEventStream → ℕ → RunEventStream
finally_pop s q = record s { subscribers = remove s.subscribers q }

-- The first resumption after a catch-up: the new queue is empty, or holds None if closed.
unfoldable pub resume_replay : RunEventStream → Drain → Outcome × RunEventStream
resume_replay s d = elim d.replay [
  | e ∷ rest ↦ (yields e (record d { replay = rest; delivered = e.event_id }), s)
  | [] ↦ if closed s then (ends, finally_pop s d.queue) else (waits d, s)
]

-- An overflow: fail, or attach again after what was delivered.
unfoldable pub catch_up : RunEventStream → Drain → Outcome × RunEventStream
unfolding cursor_expired attach resume_replay
catch_up s d =
    if not s.resumable || cursor_expired s d.delivered
    then (raises, finally_pop s d.queue)
    else let (replay, q, s') = attach (finally_pop s d.queue) (some d.delivered) d.stream_modes in
      resume_replay s' (record d { replay = replay; queue = q })

-- The inner `while` loop, over what the queue holds; `items` is what stays in the queue.
unfoldable pub pull : RunEventStream → Drain → List Item → Outcome × RunEventStream
unfolding catch_up
pull s d [] =
    let s' = record s { queues = put s.queues d.queue [] } in
    if closed s then (ends, finally_pop s' d.queue) else (waits d, s')
pull s d (Item.finished ∷ items) =
    (ends, finally_pop (record s { queues = put s.queues d.queue items }) d.queue)
pull s d (Item.overflow ∷ items) = catch_up (record s { queues = put s.queues d.queue items }) d
pull s d (Item.published e ∷ items) =
    let skipped = pull s d items in
    if leb e.event_id d.delivered then skipped else (
      yields e (record d { delivered = e.event_id }),
      record s { queues = put s.queues d.queue items },
    )

-- One `__anext__` of `_drain`.
unfoldable pub next : RunEventStream → Drain → Outcome × RunEventStream
unfolding pull
next s d = elim d.replay [
  | e ∷ rest ↦ (yields e (record d { replay = rest; delivered = e.event_id }), s)
  | [] ↦ pull s d (queue_of s d.queue)
]
