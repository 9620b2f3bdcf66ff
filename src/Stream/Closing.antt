-- ===== src/Stream/Closing.antt =====
-- `close` keeps every subscriber on track.
use skeino.Base.{
  ◌⊎◌, ℕ, ◌≡◌, refl, ap, ◌∙◌, inl, inr, true, false, Option, some, List, [], ◌∷◌, ◌++◌, arith,
  Bool-cases, Dict, get, Unique,
}
use skeino.Text.{Text}
use skeino.Stream.{StreamEvent, RunEventStream, Item, Drain, queue_of, closed, close, release_all}
use skeino.Stream.Log.{owed, after_id}
use skeino.Stream.FanOut.{
  IsReleased, release_all-IsReleased, View, view, is_full, on_attached, release, released,
  view-release_all,
}
use skeino.Stream.Delivery.{Feed, live, done, lagging, events_then, items_of, IsFed, IsOnTrack}

closed-release_all :
    (s : RunEventStream) (subscribers : Dict (List Text))
    → closed (release_all s subscribers) ≡ closed s
unfolding release_all
closed-release_all s [] = refl
closed-release_all s ((q, modes) ∷ subscribers) =
    closed-release_all (released s q) subscribers ∙ ground arith

events_then-finished :
    (es : List StreamEvent)
    → events_then es [] ++ Item.finished ∷ [] ≡ events_then es (Item.finished ∷ [])
events_then-finished [] = refl
events_then-finished (x ∷ es) = ap (◌∷◌ (Item.published x)) (events_then-finished es)

module _ (log : List StreamEvent) (s : RunEventStream) (d : Drain) where
  closing :
      (s' : RunEventStream) (es : List StreamEvent) (rest : List StreamEvent)
      → closed s' ≡ true
      → queue_of s' d.queue
        ≡ (release (record { items = events_then es []; attached = some d.stream_modes })).items
      → rest ≡ after_id d.delivered es
      → owed d.delivered d.stream_modes log ≡ d.replay ++ rest
      → IsOnTrack log s' d
  unfolding release
  closing s' es rest c q e owing = elim (Bool-cases (is_full (events_then es []))) [
    | inl full ↦ record {
      rest = rest;
      owing = owing;
      feed = live es;
      queued = q ∙ rw full;
      fed = (e, inl c);
    }
    | inr room ↦ record {
      rest = rest;
      owing = owing;
      feed = done es;
      queued = q ∙ rw room (events_then-finished es);
      fed = (e, c);
    }
  ]

-- Closing closes the stream and keeps every subscriber on track: it is still owed what it was owed. If the
-- stream was open, None is added to the queue of an attached subscriber that holds fewer than 256 items,
-- and a full one stays as it is, as does the queue of a detached subscriber. A second close does nothing.
pub close-IsOnTrack :
    (log : List StreamEvent) (s : RunEventStream) (d : Drain) (now : ℕ)
    → Unique s.subscribers
    → IsOnTrack log s d
    → IsOnTrack log (close s now) d
      × (closed (close s now) ≡ true)
      × (((closed s ≡ true) × (close s now ≡ s))
          ⊎ ((closed s ≡ false)
              × IsReleased
                  (get s.subscribers d.queue)
                  (queue_of s d.queue)
                  (view (close s now) d.queue)))
unfolding close
close-IsOnTrack log s d now u t = elim (Bool-cases (closed s)) [
  | inl shut ↦ rw shut (t, shut, inl (refl, refl))
  | inr o ↦
      rw o (by_feed o t.feed t.queued t.fed, shut', inr (refl, release_all-IsReleased s₁ d.queue u))
]
  where
    s₁ : RunEventStream
    s₁ = record s { closed_at = some now }

    shut' : closed (release_all s₁ s.subscribers) ≡ true
    shut' = closed-release_all s₁ s.subscribers

    w :
        view (release_all s₁ s.subscribers) d.queue
        ≡ on_attached (λ modes. release) (get s.subscribers d.queue) (view s d.queue)
    w = view-release_all s₁ s.subscribers d.queue u

    by_feed :
        closed s ≡ false
        → (f : Feed) → queue_of s d.queue ≡ items_of f
        → IsFed s d t.rest f
        → IsOnTrack log (release_all s₁ s.subscribers) d
    by_feed o (live es) queued (e, inl shut) = absurd (cc)
    by_feed o (live es) queued (e, inr at) =
        let seen : view s d.queue
            ≡ record { items = events_then es []; attached = some d.stream_modes } =
          λ i. record { items = queued i; attached = at i } in
        let w' =
          w
          ∙ ap (λ (a : Option (List Text)). on_attached (λ modes. release) a (view s d.queue)) at in
        closing log s d (release_all s₁ s.subscribers) es t.rest shut'
          (ap (λ (v : View). v.items) (w' ∙ ap release seen)) e t.owing
    by_feed o (done es) queued fed = absurd (cc)
    by_feed o lagging queued fed =
        let w' : view (release_all s₁ s.subscribers) d.queue ≡ view s d.queue =
          w
          ∙ ap (λ (a : Option (List Text)). on_attached (λ modes. release) a (view s d.queue))
              fed in
        record {
          rest = t.rest;
          owing = t.owing;
          feed = lagging;
          queued = ap (λ (v : View). v.items) w' ∙ queued;
          fed = ap (λ (v : View). v.attached) w' ∙ fed;
        }
