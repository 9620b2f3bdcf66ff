-- ===== src/Stream/Delivery.antt =====
-- What a subscriber receives: `next` against the log of published events.
use skeino.Base.{
  ℕ, ◌<◌, ◌≡◌, refl, sym, ap, subst, ◌∙◌, ◌⊎◌, true, false, none, some, List, [], ◌∷◌, ◌++◌, arith,
  get,
}
use skeino.Stream.{
  StreamEvent, RunEventStream, Item, Drain, Outcome, yields, waits, ends, raises, queue_of, closed,
  cursor_expired,
}
use skeino.Stream.Log.{
  Consecutive, owed, after_id, After, owed-step, owed-head, after_id-After, after_id-after_id,
  After-append_right,
}
use skeino.Stream.History.{IsHistory}

-- The queue of a subscriber: events, perhaps with None after them, or the overflow error alone.
pub data Feed : Type 0 where
  live done : List StreamEvent → Feed
  lagging : Feed

abbrev pub events_then : List StreamEvent → List Item → List Item
events_then [] tail = tail
events_then (e ∷ es) tail = Item.published e ∷ events_then es tail

abbrev pub items_of : Feed → List Item
items_of (live es) = events_then es []
items_of (done es) = events_then es (Item.finished ∷ [])
items_of lagging = Item.overflow ∷ []

-- `rest` is what the queue will give. A live feed is attached or the stream is closed.
abbrev pub IsFed : RunEventStream → Drain → List StreamEvent → Feed → Type 0
IsFed s d rest (live es) =
    (rest ≡ after_id d.delivered es)
    × ((closed s ≡ true) ⊎ (get s.subscribers d.queue ≡ some d.stream_modes))
IsFed s d rest (done es) = (rest ≡ after_id d.delivered es) × (closed s ≡ true)
IsFed s d rest lagging = get s.subscribers d.queue ≡ none

-- The iterator `d` is on track: what it is owed of the log is its replay followed by what its
-- queue will give, unless the queue has overflowed.
pub record IsOnTrack (log : List StreamEvent) (s : RunEventStream) (d : Drain) : Type 0 where
  pub rest : List StreamEvent
  pub owing : owed d.delivered d.stream_modes log ≡ d.replay ++ rest
  pub feed : Feed
  pub queued : queue_of s d.queue ≡ items_of feed
  pub fed : IsFed s d rest feed

-- The log is numbered, and a resumable stream's history is consistent with it.
pub record IsLogged (log : List StreamEvent) (s : RunEventStream) : Type 0 where
  pub numbered : Consecutive 1 log
  pub history : s.resumable ≡ true → IsHistory log s

-- What a resumption of `d` may come to.
abbrev pub IsCorrect : List StreamEvent → RunEventStream → Drain → Outcome × RunEventStream → Type 0
IsCorrect log s d (yields e d', s') =
    (owed d.delivered d.stream_modes log ≡ e ∷ owed e.event_id d.stream_modes log)
    × (d'.delivered ≡ e.event_id)
    × (d'.stream_modes ≡ d.stream_modes)
    × IsOnTrack log s' d'
IsCorrect log s d (waits d', s') =
    (owed d.delivered d.stream_modes log ≡ [])
    × (closed s ≡ false)
    × (d'.delivered ≡ d.delivered)
    × IsOnTrack log s' d'
IsCorrect log s d (ends, s') = (owed d.delivered d.stream_modes log ≡ []) × (closed s ≡ true)
IsCorrect log s d (raises, s') = (s.resumable ≡ false) ⊎ (cursor_expired s d.delivered ≡ true)

-- Later parts of a queue are not skipped by a later cut-off that they lie beyond.
pub after_id-later :
    (a b : ℕ) (es : List StreamEvent)
    → a < b
    → After b (after_id a es)
    → after_id a es ≡ after_id b es
after_id-later a b es h above =
    sym (after_id-After b (after_id a es) above) ∙ after_id-after_id a b es (omega arith)

module _ (log : List StreamEvent) (s : RunEventStream) (numbered : Consecutive 1 log) where
  -- The next event of the replay.
  pub replay-IsCorrect :
      (d : Drain) (e : StreamEvent) (replay : List StreamEvent)
      → d.replay ≡ e ∷ replay
      → IsOnTrack log s d
      → IsCorrect log s d (yields e (record d { replay = replay; delivered = e.event_id }), s)
  replay-IsCorrect d e replay r t =
      let owing : owed d.delivered d.stream_modes log ≡ e ∷ (replay ++ t.rest) =
        rw r at (t.owing) in
      let step = owed-step d.delivered 1 d.stream_modes log e (replay ++ t.rest) numbered owing in
      let head = owed-head d.delivered 1 d.stream_modes log e (replay ++ t.rest) numbered owing in
      (
        owing ∙ ap (◌∷◌ e) (sym step),
        refl,
        refl,
        record {
          rest = t.rest;
          owing = step;
          feed = t.feed;
          queued = t.queued;
          fed = later t.feed t.fed head.0 (After-append_right e.event_id replay t.rest head.1);
        },
      )
    where
      later :
          (f : Feed)
          → IsFed s d t.rest f
          → d.delivered < e.event_id
          → After e.event_id t.rest
          → IsFed s (record d { replay = replay; delivered = e.event_id }) t.rest f
      later (live es) fed h above = (
        fed.0 ∙ after_id-later d.delivered e.event_id es h (subst (After e.event_id) fed.0 above),
        fed.1,
      )
      later (done es) fed h above = (
        fed.0 ∙ after_id-later d.delivered e.event_id es h (subst (After e.event_id) fed.0 above),
        fed.1,
      )
      later lagging fed h above = fed
