-- ===== src/Examples/Streams.antt =====
-- A stream of the run 7 on the thread 1 with one published event and one subscriber that is owed it.
use skeino.Base.{false, ◌⊎◌, arith, ◌≡◌, refl, true, none, some, List, [], ◌∷◌, inr}
use skeino.Json.{Json, Fields}
use skeino.Sse.{json_dumps}
use skeino.Sse.Lines.{IsOneLine, json_dumps-IsOneLine}
use skeino.Text.{Text, codes}
use skeino.Stream.{
  queue_of, StreamEvent, Item, RunEventStream, Drain, new_stream, closed, publish, stamped,
  subscribe, close, replay_of, next, fan_out,
}
use skeino.Stream.Log.{owed}
use skeino.Stream.History.{IsHistory, publish-IsHistory, replay_of-owed}
use skeino.Stream.Delivery.{Feed, IsOnTrack, IsLogged, IsCorrect}
use skeino.Stream.Tracking.{publish-IsOnTrack, subscribe-IsOnTrack}
use skeino.Stream.FanOut.{IsReceived, IsReleased, view}
use skeino.Stream.Closing.{close-IsOnTrack}
use skeino.Stream.Next.{next-IsCorrect}

abbrev first : StreamEvent
first = record { event_id = 1; event = codes "values"; frame = codes "id: 1" }

abbrev values_mode : List Text
values_mode = codes "values" ∷ []

abbrev empty_stream : RunEventStream
empty_stream = record {
  thread_id = 1;
  run_id = 7;
  resumable = true;
  closed_at = none;
  next_id = 1;
  history = [];
  history_bytes = 0;
  evicted_through_id = 0;
  max_history_events = 10;
  max_history_bytes = 1000;
  subscribers = [];
  queues = [];
  next_queue = 0;
}

abbrev one_event : RunEventStream
one_event = record empty_stream {
  next_id = 2;
  history = first ∷ [];
  history_bytes = 5;
  subscribers = (0, values_mode) ∷ [];
  queues = (0, Item.published first ∷ []) ∷ [];
  next_queue = 1;
}

abbrev reader : Drain
reader = record { replay = []; queue = 0; delivered = 0; stream_modes = values_mode }

empty_stream-IsHistory : IsHistory [] empty_stream
empty_stream-IsHistory = record {
  gone = [];
  split = refl;
  numbered = tt;
  next = refl;
  evicted = refl;
  bytes = refl;
  within = refl;
}

one_event-IsHistory : IsHistory (first ∷ []) one_event
unfolding skeino.Text.utf8_length
one_event-IsHistory = record {
  gone = [];
  split = refl;
  numbered = (refl, tt);
  next = refl;
  evicted = refl;
  bytes = refl;
  within = refl;
}

reader-IsOnTrack : IsOnTrack (first ∷ []) one_event reader
unfolding skeino.Stream.stream_mode_matches
reader-IsOnTrack = record {
  rest = first ∷ [];
  owing = refl;
  feed = Feed.live (first ∷ []);
  queued = refl;
  fed = (refl, inr refl);
}

one_event-IsLogged : IsLogged (first ∷ []) one_event
one_event-IsLogged = record { numbered = (refl, tt); history = λ r. one_event-IsHistory }

next-IsCorrect_example : IsCorrect (first ∷ []) one_event reader (next one_event reader)
next-IsCorrect_example =
    next-IsCorrect (first ∷ []) one_event reader one_event-IsLogged reader-IsOnTrack

publish-IsHistory_example :
    (s' : RunEventStream) × (publish one_event (codes "values") Json.null
      ≡ some (stamped one_event (codes "values") Json.null, s'))
    × IsHistory (first ∷ stamped one_event (codes "values") Json.null ∷ []) s'
publish-IsHistory_example =
    publish-IsHistory (first ∷ []) one_event (codes "values") Json.null refl refl
      one_event-IsHistory

replay_of-owed_example : replay_of one_event (some 0) values_mode ≡ owed 0 values_mode (first ∷ [])
unfolding skeino.Stream.cursor_expired
replay_of-owed_example =
    replay_of-owed (first ∷ []) one_event 0 values_mode one_event-IsHistory refl

publish-IsOnTrack_example :
    (s' : RunEventStream) × (publish one_event (codes "values") Json.null
      ≡ some (stamped one_event (codes "values") Json.null, s'))
    × IsOnTrack (first ∷ stamped one_event (codes "values") Json.null ∷ []) s' reader
    × IsReceived
        (stamped one_event (codes "values") Json.null)
        (some values_mode)
        (queue_of one_event reader.queue)
        (view s' reader.queue)
publish-IsOnTrack_example =
    publish-IsOnTrack (first ∷ []) one_event reader (codes "values") Json.null refl (refl, tt)
      reader-IsOnTrack

subscribe-IsOnTrack_example :
    let (d, s') = subscribe one_event (some 0) values_mode in
    IsOnTrack (first ∷ []) s' d × (d.delivered ≡ 0) × (d.stream_modes ≡ values_mode)
unfolding skeino.Stream.cursor_expired
subscribe-IsOnTrack_example =
    subscribe-IsOnTrack (first ∷ []) one_event 0 values_mode one_event-IsHistory refl

close-IsOnTrack_example :
    IsOnTrack (first ∷ []) (close one_event 5) reader
    × (closed (close one_event 5) ≡ true)
    × (((closed one_event ≡ true) × (close one_event 5 ≡ one_event))
        ⊎ ((closed one_event ≡ false)
            × IsReleased
                (some values_mode)
                (queue_of one_event reader.queue)
                (view (close one_event 5) reader.queue)))
close-IsOnTrack_example =
    close-IsOnTrack (first ∷ []) one_event reader 5 (refl, tt) reader-IsOnTrack

abbrev two_lines : Json
two_lines =
    Json.obj
      (Fields.field "text" (Json.str "a\nb") (Fields.field "n" (Json.float "1.5") Fields.end))

json_dumps-IsOneLine_example : IsOneLine (json_dumps two_lines)
unfolding skeino.Sse.Lines.FloatsAreOneLine
json_dumps-IsOneLine_example = json_dumps-IsOneLine two_lines (tt, (ground arith, tt))
