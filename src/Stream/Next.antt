-- ===== src/Stream/Next.antt =====
-- The theorem about one resumption of a subscriber's iterator, by the parts of `next`.
use mathlib.Core.List.{append-nil}
use skeino.Base.{
  ℕ, ◌<◌, ◌≡◌, refl, sym, ap, ◌∙◌, ◌⊎◌, inl, inr, true, false, not, ◌||◌, some, List, [], ◌∷◌, ◌++◌,
  arith, leb, Bool-cases, Dict, get, put, remove, get-put_self,
}
use skeino.Stream.{
  StreamEvent, RunEventStream, Item, Drain, queue_of, closed, cursor_expired, resume_replay,
  catch_up, pull, next,
}
use skeino.Stream.Log.{owed, after_id, After, owed-step, owed-head}
use skeino.Stream.History.{replay_of-owed}
use skeino.Stream.Delivery.{
  Feed, live, done, lagging, events_then, items_of, IsFed, IsOnTrack, IsLogged, IsCorrect,
  after_id-later, replay-IsCorrect,
}

module _ (log : List StreamEvent) (s : RunEventStream) (d : Drain) (logged : IsLogged log s) where
  resume-IsCorrect :
      (s₁ : RunEventStream) (replay : List StreamEvent) (q : ℕ) (f : Feed)
      → closed s₁ ≡ closed s
      → owed d.delivered d.stream_modes log ≡ replay
      → queue_of s₁ q ≡ items_of f
      → IsFed s₁ (record d { replay = replay; queue = q }) [] f
      → IsCorrect log s d (resume_replay s₁ (record d { replay = replay; queue = q }))
  unfolding resume_replay
  resume-IsCorrect s₁ [] q f c owing queued fed = elim (Bool-cases (closed s₁)) [
    | inl shut ↦ rw shut (owing, sym c ∙ shut)
    | inr alive ↦ rw alive (
      owing,
      sym c ∙ alive,
      refl,
      record { rest = []; owing = owing; feed = f; queued = queued; fed = fed },
    )
  ]
  resume-IsCorrect s₁ (e ∷ replay) q f c owing queued fed =
      replay-IsCorrect log s₁ logged.numbered (record d { replay = e ∷ replay; queue = q }) e replay
        refl
        (record {
          rest = [];
          owing = owing ∙ sym (append-nil (e ∷ replay));
          feed = f;
          queued = queued;
          fed = fed;
        })

  pub catch_up-IsCorrect : IsCorrect log s d (catch_up s d)
  unfolding catch_up
  catch_up-IsCorrect = elim (Bool-cases (not s.resumable || cursor_expired s d.delivered)) [
    | inl fails ↦ rw fails (ground arith)
    | inr resumes ↦
        let can : s.resumable ≡ true = ground arith in
        let fresh : cursor_expired s d.delivered ≡ false = ground arith in
        let owing =
          sym (replay_of-owed log s d.delivered d.stream_modes (logged.history can) fresh) in
        rw resumes (elim (Bool-cases (closed s)) [
          | inl shut ↦ rw shut (
              resume-IsCorrect _ _ s.next_queue (done []) refl owing
                (ground (arith, get-put_self s.queues s.next_queue (Item.finished ∷ [])))
                (refl, shut))
          | inr alive ↦ rw alive (
              resume-IsCorrect _ _ s.next_queue (live []) refl owing
                (ground (arith, get-put_self {V = List Item} s.queues s.next_queue []))
                (
                  refl,
                  inr (get-put_self (remove s.subscribers d.queue) s.next_queue d.stream_modes),
                ))
        ])
  ]

  -- The feed that is left when `x` was taken from the queue.
  taken :
      (x : StreamEvent) (es : List StreamEvent) (tail : List Item)
      → d.replay ≡ []
      → ((tail ≡ []) × ((closed s ≡ true) ⊎ (get s.subscribers d.queue ≡ some d.stream_modes)))
        ⊎ ((tail ≡ Item.finished ∷ []) × (closed s ≡ true))
      → d.delivered < x.event_id
      → owed x.event_id d.stream_modes log ≡ after_id d.delivered es
      → After x.event_id (after_id d.delivered es)
      → IsOnTrack log
          (record s { queues = put s.queues d.queue (events_then es tail) })
          (record d { delivered = x.event_id })
  taken x es tail r t h step above =
      let later = after_id-later d.delivered x.event_id es h above in
      let owing =
        step ∙ later ∙ ap (λ (l : List StreamEvent). l ++ after_id x.event_id es) (sym r) in
      elim t [
        | inl (e, at) ↦ record {
          rest = after_id x.event_id es;
          owing = owing;
          feed = live es;
          queued = ground (arith, get-put_self s.queues d.queue (events_then es tail));
          fed = (refl, at);
        }
        | inr (e, at) ↦ record {
          rest = after_id x.event_id es;
          owing = owing;
          feed = done es;
          queued = ground (arith, get-put_self s.queues d.queue (events_then es tail));
          fed = (refl, at);
        }
      ]

  pull-IsCorrect :
      (es : List StreamEvent) (tail : List Item)
      → owed d.delivered d.stream_modes log ≡ after_id d.delivered es
      → ((tail ≡ []) × ((closed s ≡ true) ⊎ (get s.subscribers d.queue ≡ some d.stream_modes)))
        ⊎ ((tail ≡ Item.finished ∷ []) × (closed s ≡ true))
      → d.replay ≡ []
      → IsCorrect log s d (pull s d (events_then es tail))
  unfolding pull
  pull-IsCorrect [] tail owing (inl (e, at)) r = rw e (elim (Bool-cases (closed s)) [
    | inl shut ↦ rw shut (owing, shut)
    | inr alive ↦ rw alive (
      owing,
      alive,
      refl,
      record {
        rest = [];
        owing = owing ∙ ap (λ (l : List StreamEvent). l ++ []) (sym r);
        feed = live [];
        queued = ground (arith, get-put_self {V = List Item} s.queues d.queue []);
        fed = (refl, at);
      },
    )
  ])
  pull-IsCorrect [] tail owing (inr (e, at)) r = rw e (owing, at)
  pull-IsCorrect (x ∷ es) tail owing t r = elim (Bool-cases (leb x.event_id d.delivered)) [
    | inl old ↦ rw old (pull-IsCorrect es tail (ground arith) t r)
    | inr new ↦
        let owing' : owed d.delivered d.stream_modes log ≡ x ∷ after_id d.delivered es =
          ground arith in
        let step =
          owed-step d.delivered 1 d.stream_modes log x (after_id d.delivered es) logged.numbered
            owing' in
        let head =
          owed-head d.delivered 1 d.stream_modes log x (after_id d.delivered es) logged.numbered
            owing' in
        rw new (owing' ∙ ap (◌∷◌ x) (sym step), refl, refl, taken x es tail r t head.0 step head.1)
  ]

with_queues-IsLogged :
    (log : List StreamEvent) (s : RunEventStream) (queues : Dict (List Item))
    → IsLogged log s
    → IsLogged log (record s { queues = queues })
with_queues-IsLogged log s queues v = record {
  numbered = v.numbered;
  history = λ r.
      let h = v.history r in
      record {
        gone = h.gone;
        split = h.split;
        numbered = h.numbered;
        next = h.next;
        evicted = h.evicted;
        bytes = h.bytes;
        within = h.within;
      };
}

overflowed :
    (log : List StreamEvent) (s : RunEventStream) (d : Drain)
    → IsLogged log s
    → IsCorrect log s d (pull s d (Item.overflow ∷ []))
unfolding pull cursor_expired
overflowed log s d logged =
    let s' = record s { queues = put s.queues d.queue [] } in
    catch_up-IsCorrect log s' d (with_queues-IsLogged log s _ logged)

-- Exactly once and in order: one resumption of an iterator that is on track yields the first
-- published event that it is still owed and stays on track; it waits only if it is owed nothing
-- and the stream is open; it ends only if it is owed nothing and the stream is closed; and it
-- raises the overflow error only on a stream that keeps no history or whose history no longer
-- reaches back to what was delivered.
pub next-IsCorrect :
    (log : List StreamEvent) (s : RunEventStream) (d : Drain)
    → IsLogged log s
    → IsOnTrack log s d
    → IsCorrect log s d (next s d)
unfolding next
next-IsCorrect log s d logged t = by_replay d.replay refl
  where
    by_feed :
        (f : Feed)
        → queue_of s d.queue ≡ items_of f
        → IsFed s d t.rest f
        → d.replay ≡ []
        → IsCorrect log s d (pull s d (queue_of s d.queue))
    by_feed (live es) queued fed r = rw queued (
        pull-IsCorrect log s d logged es []
          (t.owing ∙ ap (λ (l : List StreamEvent). l ++ t.rest) r ∙ fed.0) (inl (refl, fed.1)) r)
    by_feed (done es) queued fed r = rw queued (
        pull-IsCorrect log s d logged es (Item.finished ∷ [])
          (t.owing ∙ ap (λ (l : List StreamEvent). l ++ t.rest) r ∙ fed.0) (inr (refl, fed.1)) r)
    by_feed lagging queued fed r = rw queued (overflowed log s d logged)

    by_replay : (replay : List StreamEvent) → d.replay ≡ replay → IsCorrect log s d (next s d)
    by_replay [] r = rw (r, next) (by_feed t.feed t.queued t.fed r)
    by_replay (e ∷ replay) r = rw (r, next) (replay-IsCorrect log s logged.numbered d e replay r t)
