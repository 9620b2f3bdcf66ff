-- ===== src/Stream/FanOut.antt =====
-- What the fan-out of `publish` and of `close` does to one subscriber: its queue and its entry.
use skeino.Base.{
  ◌⊎◌, ◌≤◌, ◌<◌, true, false, leb→le, ℕ, ◌≡◌, ◌≢◌, refl, sym, ap, subst, ◌∙◌, Bool, not, Option,
  none, some, List, [], ◌∷◌, ◌++◌, arith, ◌==◌, ==_iff, leb, if◌then◌else◌, length, Bool-cases, inl,
  inr, Dict, get, Unique, get-put_self, get-put_ne, get-remove_self, get-remove_ne,
  get-none-contains,
}
use skeino.Text.{Text}
use skeino.Stream.{
  StreamEvent, RunEventStream, Item, stream_mode_matches, subscriber_queue_size, queue_of, full,
  deliver, detach_lagging, put_nowait, fan_out, release_all,
}

-- A subscriber as the fan-out sees it: what its queue holds, and its modes while it is attached.
pub record View : Type 0 where
  pub items : List Item
  pub attached : Option (List Text)

abbrev pub view : RunEventStream → ℕ → View
view s q = record { items = queue_of s q; attached = get s.subscribers q }

abbrev pub is_full : List Item → Bool
is_full items = leb subscriber_queue_size (length items)

-- One published event, seen by an attached subscriber.
unfoldable pub receive : StreamEvent → List Text → View → View
receive e modes v =
    if not (stream_mode_matches e.event modes)
    then v
    else if is_full v.items
    then record { items = Item.overflow ∷ []; attached = none }
    else record v { items = v.items ++ Item.published e ∷ [] }

deliver_self :
    (e : StreamEvent) (s : RunEventStream) (q : ℕ) (modes : List Text)
    → view (deliver e s q modes) q ≡ receive e modes (view s q)
unfolding deliver detach_lagging put_nowait receive
deliver_self e s q modes = ground (
  arith,
  get-put_self s.queues q (Item.overflow ∷ []),
  get-put_self s.queues q (queue_of s q ++ Item.published e ∷ []),
  get-remove_self s.subscribers q,
)

deliver_ne :
    (e : StreamEvent) (s : RunEventStream) (q j : ℕ) (modes : List Text)
    → q ≢ j
    → view (deliver e s q modes) j ≡ view s j
unfolding deliver detach_lagging put_nowait
deliver_ne e s q j modes h = ground (
  arith,
  get-put_ne s.queues q (Item.overflow ∷ []) j h,
  get-put_ne s.queues q (queue_of s q ++ Item.published e ∷ []) j h,
  get-remove_ne s.subscribers q j h,
)

abbrev pub on_attached : (List Text → View → View) → Option (List Text) → View → View
on_attached f none v = v
on_attached f (some modes) v = f modes v

-- Each attached subscriber receives the event once, and nobody else is touched.
pub view-fan_out :
    (e : StreamEvent) (s : RunEventStream) (d : Dict (List Text)) (q : ℕ)
    → Unique d
    → view (fan_out e s d) q ≡ on_attached (receive e) (get d q) (view s q)
unfolding fan_out
view-fan_out e s [] q u = refl
view-fan_out e s ((j, modes) ∷ d) q u = elim (Bool-cases (j == q)) [
  | inl hit ↦
      let same : j ≡ q = (==_iff j q).0 hit in
      let absent : get d q ≡ none = get-none-contains d q (rw same at (u.0)) in
      view-fan_out e (deliver e s j modes) d q u.1
      ∙ rw (hit, absent)
          (subst (λ k. view (deliver e s k modes) q ≡ receive e modes (view s q)) (sym same)
            (deliver_self e s q modes))
  | inr miss ↦
      view-fan_out e (deliver e s j modes) d q u.1
      ∙ rw miss (ap (on_attached (receive e) (get d q)) (deliver_ne e s j q modes (ground arith)))
]

-- `close` puts None into a queue that is not full.
unfoldable pub release : View → View
release v = if is_full v.items then v else record v { items = v.items ++ Item.finished ∷ [] }

abbrev pub released : RunEventStream → ℕ → RunEventStream
released s q = if full s q then s else put_nowait s q Item.finished

release_self : (s : RunEventStream) (q : ℕ) → view (released s q) q ≡ release (view s q)
unfolding put_nowait release
release_self s q = ground (arith, get-put_self s.queues q (queue_of s q ++ Item.finished ∷ []))

release_ne : (s : RunEventStream) (q j : ℕ) → q ≢ j → view (released s q) j ≡ view s j
unfolding put_nowait
release_ne s q j h = ground (arith, get-put_ne s.queues q (queue_of s q ++ Item.finished ∷ []) j h)

pub view-release_all :
    (s : RunEventStream) (d : Dict (List Text)) (q : ℕ)
    → Unique d
    → view (release_all s d) q ≡ on_attached (λ modes. release) (get d q) (view s q)
unfolding release_all
view-release_all s [] q u = refl
view-release_all s ((j, modes) ∷ d) q u = elim (Bool-cases (j == q)) [
  | inl hit ↦
      let same : j ≡ q = (==_iff j q).0 hit in
      let absent : get d q ≡ none = get-none-contains d q (rw same at (u.0)) in
      view-release_all (released s j) d q u.1
      ∙ rw (hit, absent)
          (subst (λ k. view (released s k) q ≡ release (view s q)) (sym same) (release_self s q))
  | inr miss ↦
      view-release_all (released s j) d q u.1
      ∙ rw miss (ap (on_attached (λ modes. release) (get d q)) (release_ne s j q (ground arith)))
]

-- A queue holds at most 256 items. What an event makes of a subscriber, by its entry and its queue before:
-- nobody else is reached; an event that does not match is skipped; a full queue is replaced by the overflow
-- error, and its subscriber detached; else the event is added at the end.
abbrev pub IsReceived : StreamEvent → Option (List Text) → List Item → View → Type 0
IsReceived e none items v = (v.items ≡ items) × (v.attached ≡ none)
IsReceived e (some modes) items v =
    ((stream_mode_matches e.event modes ≡ false) × (v.items ≡ items) × (v.attached ≡ some modes))
    ⊎ (((stream_mode_matches e.event modes ≡ true)
          × (256 ≤ length items)
          × (v.items ≡ Item.overflow ∷ [])
          × (v.attached ≡ none))
        ⊎ ((stream_mode_matches e.event modes ≡ true)
            × (length items < 256)
            × (v.items ≡ items ++ Item.published e ∷ [])
            × (v.attached ≡ some modes)))

-- What `close` makes of a subscriber: None is added at the end of its queue unless that is full.
abbrev pub IsReleased : Option (List Text) → List Item → View → Type 0
IsReleased none items v = (v.items ≡ items) × (v.attached ≡ none)
IsReleased (some modes) items v =
    (((length items < 256) × (v.items ≡ items ++ Item.finished ∷ []))
      ⊎ ((256 ≤ length items) × (v.items ≡ items)))
    × (v.attached ≡ some modes)

receive-IsReceived :
    (e : StreamEvent) (at : Option (List Text)) (items : List Item)
    → IsReceived e at items (on_attached (receive e) at (record { items = items; attached = at }))
unfolding receive
receive-IsReceived e none items = (refl, refl)
receive-IsReceived e (some modes) items = elim (Bool-cases (stream_mode_matches e.event modes)) [
  | inr skipped ↦ rw (skipped, receive) (inl (refl, refl, refl))
  | inl wanted ↦ elim (Bool-cases (is_full items)) [
    | inl full ↦
        rw (wanted, full, receive)
          (inr (inl (refl, leb→le subscriber_queue_size (length items) full, refl, refl)))
    | inr room ↦ rw (wanted, room, receive) (inr (inr (refl, ground arith, refl, refl)))
  ]
]

release-IsReleased :
    (at : Option (List Text)) (items : List Item)
    → IsReleased at items
        (on_attached (λ modes. release) at (record { items = items; attached = at }))
unfolding release
release-IsReleased none items = (refl, refl)
release-IsReleased (some modes) items = elim (Bool-cases (is_full items)) [
  | inl full ↦
      rw (full, release) (inr (leb→le subscriber_queue_size (length items) full, refl), refl)
  | inr room ↦ rw (room, release) (inl (ground arith, refl), refl)
]

pub fan_out-IsReceived :
    (e : StreamEvent) (s : RunEventStream) (q : ℕ)
    → Unique s.subscribers
    → IsReceived e (get s.subscribers q) (queue_of s q) (view (fan_out e s s.subscribers) q)
fan_out-IsReceived e s q u =
    subst (IsReceived e (get s.subscribers q) (queue_of s q))
      (sym (view-fan_out e s s.subscribers q u))
      (receive-IsReceived e (get s.subscribers q) (queue_of s q))

pub release_all-IsReleased :
    (s : RunEventStream) (q : ℕ)
    → Unique s.subscribers
    → IsReleased (get s.subscribers q) (queue_of s q) (view (release_all s s.subscribers) q)
release_all-IsReleased s q u =
    subst (IsReleased (get s.subscribers q) (queue_of s q))
      (sym (view-release_all s s.subscribers q u))
      (release-IsReleased (get s.subscribers q) (queue_of s q))
