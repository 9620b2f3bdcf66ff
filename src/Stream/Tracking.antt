-- ===== src/Stream/Tracking.antt =====
-- A subscriber is put on track by `subscribe` and kept there by every `publish` and by `close`.
use mathlib.Core.List.{append_assoc, append-nil}
use skeino.Base.{
  subst, ℕ, suc, ◌+◌, ◌≡◌, refl, sym, ap, ap₂, ◌∙◌, inl, inr, true, false, Option, none, some, List,
  [], ◌∷◌, ◌++◌, arith, length, keep-append, Bool-cases, get, Unique, get-put_self,
}
use skeino.Json.{Json}
use skeino.Text.{Text}
use skeino.Stream.{
  StreamEvent, RunEventStream, Item, Drain, queue_of, closed, attach, subscribe, cursor_expired,
  replay_of, next, stream_mode_matches, publish, stamped, last_event_id, fan_out, record_history,
}
use skeino.Stream.Log.{Consecutive, owed, after_id, owed-none}
use skeino.Stream.History.{IsHistory, replay_of-owed, fan_out-SameHistory, publish-open}
use skeino.Stream.FanOut.{
  IsReceived, fan_out-IsReceived, View, view, is_full, receive, on_attached, view-fan_out,
}
use skeino.Stream.Delivery.{Feed, live, done, lagging, events_then, items_of, IsFed, IsOnTrack}

attached-IsOnTrack :
    (log : List StreamEvent) (s : RunEventStream) (after : Option ℕ) (n : ℕ) (modes : List Text)
    → owed n modes log ≡ replay_of s after modes
    → let (replay, q, s') = attach s after modes in
      IsOnTrack log s' (record { replay = replay; queue = q; delivered = n; stream_modes = modes })
unfolding attach
attached-IsOnTrack log s after n modes e = elim (Bool-cases (closed s)) [
  | inl shut ↦ rw shut (record {
    rest = [];
    owing = e ∙ sym (append-nil _);
    feed = done [];
    queued = ground (arith, get-put_self s.queues s.next_queue (Item.finished ∷ []));
    fed = (refl, shut);
  })
  | inr alive ↦ rw alive (record {
    rest = [];
    owing = e ∙ sym (append-nil _);
    feed = live [];
    queued = ground (arith, get-put_self {V = List Item} s.queues s.next_queue []);
    fed = (refl, inr (get-put_self s.subscribers s.next_queue modes));
  })
]

-- Attaching to a stream after a cursor that has not expired puts the subscriber on track: it is
-- owed exactly the matching events after the cursor.
pub subscribe-IsOnTrack :
    (log : List StreamEvent) (s : RunEventStream) (after : ℕ) (modes : List Text)
    → IsHistory log s
    → cursor_expired s after ≡ false
    → let (d, s') = subscribe s (some after) modes in
      IsOnTrack log s' d × (d.delivered ≡ after) × (d.stream_modes ≡ modes)
unfolding subscribe attach
subscribe-IsOnTrack log s after modes v fresh = (
  attached-IsOnTrack log s (some after) after modes
      (sym (replay_of-owed log s after modes v fresh)),
  refl,
  refl,
)

-- Without a cursor the subscriber is on track for the events that are still to be published.
subscribe_live-IsOnTrack :
    (log : List StreamEvent) (s : RunEventStream) (modes : List Text)
    → Consecutive 1 log
    → s.next_id ≡ suc (length log)
    → let (d, s') = subscribe s none modes in
      IsOnTrack log s' d × (d.delivered ≡ length log) × (d.stream_modes ≡ modes)
unfolding subscribe attach replay_of
subscribe_live-IsOnTrack log s modes numbered next = (
  attached-IsOnTrack log s none (last_event_id s) modes
      (owed-none (last_event_id s) 1 modes log numbered (omega arith)),
  omega arith,
  refl,
)

events_then-append :
    (es : List StreamEvent) (e : StreamEvent)
    → events_then es [] ++ Item.published e ∷ [] ≡ events_then (es ++ e ∷ []) []
events_then-append [] e = refl
events_then-append (x ∷ es) e = ap (◌∷◌ (Item.published x)) (events_then-append es e)

module _ (log : List StreamEvent) (s s' : RunEventStream) (d : Drain) (e : StreamEvent)
    (o : closed s ≡ false) (c : closed s' ≡ closed s)
    (w : view s' d.queue ≡ on_attached (receive e) (get s.subscribers d.queue) (view s d.queue))
    (t : IsOnTrack log s d) where
  owing_more :
      owed d.delivered d.stream_modes (log ++ e ∷ [])
      ≡ d.replay ++ (t.rest ++ owed d.delivered d.stream_modes (e ∷ []))
  owing_more =
      keep-append _ log (e ∷ [])
      ∙ ap (λ (l : List StreamEvent). l ++ owed d.delivered d.stream_modes (e ∷ [])) t.owing
      ∙ append_assoc d.replay t.rest _

  received_live :
      (es : List StreamEvent)
      → queue_of s d.queue ≡ events_then es []
      → t.rest ≡ after_id d.delivered es
      → get s.subscribers d.queue ≡ some d.stream_modes
      → IsOnTrack (log ++ e ∷ []) s' d
  unfolding receive
  received_live es queued fed at =
      let w' : view s' d.queue ≡ receive e d.stream_modes (view s d.queue) =
        w ∙ ap (λ (o : Option (List Text)). on_attached (receive e) o (view s d.queue)) at in
      elim (Bool-cases (stream_mode_matches e.event d.stream_modes)) [
        | inr skipped ↦
            let skip : view s' d.queue ≡ view s d.queue = w' ∙ rw (skipped, receive) in
            record {
              rest = t.rest;
              owing =
                  owing_more ∙ ap (◌++◌ d.replay) (rw skipped (ground (arith, append-nil t.rest)));
              feed = live es;
              queued = ap (λ (v : View). v.items) skip ∙ queued;
              fed = (fed, inr (ap (λ (v : View). v.attached) skip ∙ at));
            }
        | inl wanted ↦ elim (Bool-cases (is_full (queue_of s d.queue))) [
          | inl full ↦
              let drop_all : view s' d.queue
                  ≡ record { items = Item.overflow ∷ []; attached = none } =
                w' ∙ rw (wanted, full, receive) in
              record {
                rest = t.rest ++ owed d.delivered d.stream_modes (e ∷ []);
                owing = owing_more;
                feed = lagging;
                queued = ap (λ (v : View). v.items) drop_all;
                fed = ap (λ (v : View). v.attached) drop_all;
              }
          | inr room ↦
              let add : view s' d.queue ≡ record {
                items = queue_of s d.queue ++ Item.published e ∷ [];
                attached = get s.subscribers d.queue;
              } =
                w' ∙ rw (wanted, room, receive) in
              record {
                rest = t.rest ++ owed d.delivered d.stream_modes (e ∷ []);
                owing = owing_more;
                feed = live (es ++ e ∷ []);
                queued =
                    ap (λ (v : View). v.items) add
                    ∙ ap (λ (l : List Item). l ++ Item.published e ∷ []) queued
                    ∙ events_then-append es e;
                fed = (
                  ap₂ ◌++◌ fed (rw wanted (ground arith)) ∙ sym (keep-append _ es (e ∷ [])),
                  inr (ap (λ (v : View). v.attached) add ∙ at),
                );
              }
        ]
      ]

  pub received : IsOnTrack (log ++ e ∷ []) s' d
  received = by_feed t.feed t.queued t.fed
    where
      by_feed :
          (f : Feed)
          → queue_of s d.queue ≡ items_of f
          → IsFed s d t.rest f
          → IsOnTrack (log ++ e ∷ []) s' d
      by_feed (live es) queued (fed, inl shut) = absurd (cc)
      by_feed (live es) queued (fed, inr at) = received_live es queued fed at
      by_feed (done es) queued fed = absurd (cc)
      by_feed lagging queued fed =
          let w' : view s' d.queue ≡ view s d.queue =
            w ∙ ap (λ (o : Option (List Text)). on_attached (receive e) o (view s d.queue)) fed in
          record {
            rest = t.rest ++ owed d.delivered d.stream_modes (e ∷ []);
            owing = owing_more;
            feed = lagging;
            queued = ap (λ (v : View). v.items) w' ∙ queued;
            fed = ap (λ (v : View). v.attached) w' ∙ fed;
          }

fan_out-IsOnTrack :
    (log : List StreamEvent) (s : RunEventStream) (d : Drain) (e : StreamEvent)
    → closed s ≡ false
    → Unique s.subscribers
    → IsOnTrack log s d
    → IsOnTrack (log ++ e ∷ []) (fan_out e s s.subscribers) d
fan_out-IsOnTrack log s d e o u t =
    received log s (fan_out e s s.subscribers) d e o
      (ap (λ (at : Option ℕ). elim at [ none ↦ false | some n ↦ true ])
        (fan_out-SameHistory e s s.subscribers).same_closed)
      (view-fan_out e s s.subscribers d.queue u) t

pub IsOnTrack-same :
    (log : List StreamEvent) (s s' : RunEventStream) (d : Drain)
    → closed s' ≡ closed s
    → view s' d.queue ≡ view s d.queue
    → IsOnTrack log s d
    → IsOnTrack log s' d
IsOnTrack-same log s s' d c w t = record {
  rest = t.rest;
  owing = t.owing;
  feed = t.feed;
  queued = ap (λ (v : View). v.items) w ∙ t.queued;
  fed = same t.feed t.fed;
}
  where
    at : get s'.subscribers d.queue ≡ get s.subscribers d.queue
    at = ap (λ (v : View). v.attached) w

    same : (f : Feed) → IsFed s d t.rest f → IsFed s' d t.rest f
    same (live es) (e, inl shut) = (e, inl (c ∙ shut))
    same (live es) (e, inr on) = (e, inr (at ∙ on))
    same (done es) (e, shut) = (e, c ∙ shut)
    same lagging off = at ∙ off

record_history-kept :
    (e : StreamEvent) (s : RunEventStream) (q : ℕ)
    → let s' = record_history e (record s { next_id = s.next_id + 1 }) in
      (closed s' ≡ closed s) × (view s' q ≡ view s q) × (s'.subscribers ≡ s.subscribers)
unfolding record_history
record_history-kept e s q = elim (Bool-cases s.resumable) [
  | inl r ↦ rw r (refl, refl, refl)
  | inr r ↦ rw r (refl, refl, refl)
]

-- Publishing on an open stream keeps every subscriber on track: the new event is added to what a
-- subscriber is owed exactly if it matches the subscriber's modes. A matching event goes to the end of an
-- attached subscriber's queue if that holds fewer than 256 items; a queue with 256 items overflows: it then
-- holds the overflow error alone, and its subscriber is detached. Any other event changes neither.
pub publish-IsOnTrack :
    (log : List StreamEvent) (s : RunEventStream) (d : Drain) (name : Text) (payload : Json)
    → closed s ≡ false
    → Unique s.subscribers
    → IsOnTrack log s d
    → (s' : RunEventStream) × (publish s name payload ≡ some (stamped s name payload, s'))
      × IsOnTrack (log ++ stamped s name payload ∷ []) s' d
      × IsReceived
          (stamped s name payload)
          (get s.subscribers d.queue)
          (queue_of s d.queue)
          (view s' d.queue)
publish-IsOnTrack log s d name payload o u t =
    let e = stamped s name payload in
    let kept = record_history e (record s { next_id = s.next_id + 1 }) in
    let same = record_history-kept e s d.queue in
    let unique : Unique kept.subscribers = rw same.2 u in
    (
      fan_out e kept kept.subscribers,
      publish-open s name payload o,
      fan_out-IsOnTrack log kept d e (same.0 ∙ o) unique
          (IsOnTrack-same log s kept d same.0 same.1 t),
      subst
          (λ (v : View).
            IsReceived e v.attached v.items (view (fan_out e kept kept.subscribers) d.queue))
          same.1 (fan_out-IsReceived e kept d.queue unique),
    )
