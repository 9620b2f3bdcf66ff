-- ===== src/Stream/History.antt =====
-- The replay history: what `publish` keeps and evicts, and what a replay from it gives.
use mathlib.Core.List.{append_assoc}
use skeino.Base.{
  ℕ, suc, ◌+◌, ◌-◌, ◌≡◌, refl, sym, ap, ◌∙◌, true, false, some, List, [], ◌∷◌, ◌++◌, arith, length,
  length-append, Bool-cases, inl, inr, Dict,
}
use skeino.Json.{Json}
use skeino.Text.{Text}
use skeino.Stream.{
  StreamEvent, RunEventStream, Retained, new_stream, evict, over_limit, frame_bytes, record_history,
  stamped, publish, deliver, fan_out, cursor_expired, replay_of, closed,
}
use skeino.Stream.Log.{
  Consecutive, total_bytes, owed, Consecutive-append, total_bytes-append, owed-prefix,
  Consecutive-suffix,
}

-- The history of a resumable stream against the log of all that it published: the log is numbered
-- from 1, the history is what is left of it after `gone`, and the counters agree.
pub record IsHistory (log : List StreamEvent) (s : RunEventStream) : Type 0 where
  pub gone : List StreamEvent
  pub split : log ≡ gone ++ s.history
  pub numbered : Consecutive 1 log
  pub next : s.next_id ≡ suc (length log)
  pub evicted : s.evicted_through_id ≡ length gone
  pub bytes : s.history_bytes ≡ total_bytes s.history
  pub within :
      over_limit s.max_history_events s.max_history_bytes s.history (total_bytes s.history) ≡ false

-- The loop pops a prefix, says how far it went, and stops as soon as both limits hold.
pub record IsEvicted (max_events max_bytes : ℕ) (events : List StreamEvent) (through : ℕ)
    (r : Retained) : Type 0 where
  pub gone : List StreamEvent
  pub split : events ≡ gone ++ r.events
  pub through_gone : r.evicted_through ≡ through + length gone
  pub size : r.bytes ≡ total_bytes r.events
  pub fits : over_limit max_events max_bytes r.events (total_bytes r.events) ≡ false

evict-IsEvicted :
    (max_events max_bytes : ℕ) (events : List StreamEvent) (bytes through : ℕ)
    → Consecutive (suc through) events
    → bytes ≡ total_bytes events
    → IsEvicted max_events max_bytes events through
        (evict max_events max_bytes events bytes through)
unfolding evict
evict-IsEvicted me mb [] bytes through c e = record {
  gone = [];
  split = refl;
  through_gone = omega arith;
  size = e;
  fits = ground arith;
}
evict-IsEvicted me mb (x ∷ events) bytes through c e =
    elim (Bool-cases (over_limit me mb (x ∷ events) bytes)) [
      | inl over ↦
          let rest =
            evict-IsEvicted me mb events (bytes - frame_bytes x) x.event_id (rw c.0 c.1)
              (omega arith) in
          rw over (record {
            gone = x ∷ rest.gone;
            split = ap (◌∷◌ x) rest.split;
            through_gone = omega (arith, rest.through_gone, c.0);
            size = rest.size;
            fits = rest.fits;
          })
      | inr within ↦ rw within (record {
        gone = [];
        split = refl;
        through_gone = omega arith;
        size = e;
        fits = rw (← e) within;
      })
    ]

-- A step that leaves the history alone.
pub record SameHistory (s s' : RunEventStream) : Type 0 where
  pub same_history : s'.history ≡ s.history
  pub same_bytes : s'.history_bytes ≡ s.history_bytes
  pub same_evicted : s'.evicted_through_id ≡ s.evicted_through_id
  pub same_next : s'.next_id ≡ s.next_id
  pub same_max_events : s'.max_history_events ≡ s.max_history_events
  pub same_max_bytes : s'.max_history_bytes ≡ s.max_history_bytes
  pub same_resumable : s'.resumable ≡ s.resumable
  pub same_closed : s'.closed_at ≡ s.closed_at

deliver-SameHistory :
    (e : StreamEvent) (s : RunEventStream) (q : ℕ) (modes : List Text)
    → SameHistory s (deliver e s q modes)
unfolding deliver
deliver-SameHistory e s q modes = ground arith

SameHistory-trans : (s t u : RunEventStream) → SameHistory s t → SameHistory t u → SameHistory s u
SameHistory-trans s t u h k = ground arith

pub fan_out-SameHistory :
    (e : StreamEvent) (s : RunEventStream) (d : Dict (List Text)) → SameHistory s (fan_out e s d)
unfolding fan_out
fan_out-SameHistory e s [] = ground arith
fan_out-SameHistory e s ((q, modes) ∷ d) =
    SameHistory-trans s (deliver e s q modes) (fan_out e (deliver e s q modes) d)
      (deliver-SameHistory e s q modes) (fan_out-SameHistory e (deliver e s q modes) d)

pub IsHistory-same :
    (log : List StreamEvent) (s s' : RunEventStream)
    → SameHistory s s'
    → IsHistory log s
    → IsHistory log s'
IsHistory-same log s s' h v = record {
  gone = v.gone;
  split = rw h.same_history v.split;
  numbered = v.numbered;
  next = ground arith;
  evicted = ground arith;
  bytes = rw (h.same_history, h.same_bytes) v.bytes;
  within = rw (h.same_history, h.same_max_events, h.same_max_bytes) v.within;
}

pub record_history-IsHistory :
    (log : List StreamEvent) (s : RunEventStream) (e : StreamEvent)
    → s.resumable ≡ true
    → IsHistory log s
    → e.event_id ≡ s.next_id
    → IsHistory (log ++ e ∷ []) (record_history e (record s { next_id = s.next_id + 1 }))
unfolding record_history
record_history-IsHistory log s e r v h =
    let numbered' : Consecutive 1 (log ++ e ∷ []) =
      Consecutive-append 1 log e v.numbered (omega (arith, h, v.next)) in
    let split' : log ++ e ∷ [] ≡ v.gone ++ (s.history ++ e ∷ []) =
      ap (λ (l : List StreamEvent). l ++ e ∷ []) v.split ∙ append_assoc v.gone s.history (e ∷ []) in
    let through : suc s.evicted_through_id ≡ 1 + length v.gone = omega (arith, v.evicted) in
    let ev : IsEvicted s.max_history_events s.max_history_bytes (s.history ++ e ∷ [])
        s.evicted_through_id
        (evict s.max_history_events s.max_history_bytes (s.history ++ e ∷ [])
          (s.history_bytes + frame_bytes e) s.evicted_through_id) =
      evict-IsEvicted s.max_history_events s.max_history_bytes (s.history ++ e ∷ [])
        (s.history_bytes + frame_bytes e) s.evicted_through_id
        (rw through (Consecutive-suffix 1 v.gone (s.history ++ e ∷ []) (rw split' at numbered')))
        (omega (arith, v.bytes, total_bytes-append s.history e)) in
    rw r (record {
      gone = v.gone ++ ev.gone;
      split = split' ∙ ap (◌++◌ v.gone) ev.split ∙ sym (append_assoc v.gone ev.gone _);
      numbered = numbered';
      next = omega (arith, v.next, length-append log (e ∷ []));
      evicted = omega (arith, v.evicted, ev.through_gone, length-append v.gone ev.gone);
      bytes = ev.size;
      within = ev.fits;
    })

pub new_stream-IsHistory :
    (thread_id run_id max_events max_bytes : ℕ)
    → IsHistory [] (new_stream thread_id run_id true max_events max_bytes)
unfolding new_stream
new_stream-IsHistory t r me mb = record {
  gone = [];
  split = refl;
  numbered = tt;
  next = refl;
  evicted = refl;
  bytes = refl;
  within = ground arith;
}

pub publish-open :
    (s : RunEventStream) (name : Text) (payload : Json)
    → closed s ≡ false
    → publish s name payload
      ≡ some (
        stamped s name payload,
        (let s' = record_history (stamped s name payload) (record s { next_id = s.next_id + 1 }) in
            fan_out (stamped s name payload) s' s'.subscribers),
      )
unfolding publish
publish-open s name payload o = rw o

-- On an open resumable stream `publish` succeeds, numbers the event with the next id, and keeps
-- the history consistent with the log: its newest part, within both limits, and nothing evicted
-- beyond `evicted_through_id`.
pub publish-IsHistory :
    (log : List StreamEvent) (s : RunEventStream) (name : Text) (payload : Json)
    → closed s ≡ false
    → s.resumable ≡ true
    → IsHistory log s
    → (s' : RunEventStream) × (publish s name payload ≡ some (stamped s name payload, s'))
      × IsHistory (log ++ stamped s name payload ∷ []) s'
publish-IsHistory log s name payload o r v =
    let e = stamped s name payload in
    let kept = record_history e (record s { next_id = s.next_id + 1 }) in
    (
      fan_out e kept kept.subscribers,
      publish-open s name payload o,
      IsHistory-same (log ++ e ∷ []) kept _ (fan_out-SameHistory e kept kept.subscribers)
          (record_history-IsHistory log s e r v (unfold stamped in refl)),
    )

-- A replay from a cursor that has not expired is complete: it is exactly the published events
-- after the cursor that match the stream modes, in order, evicted or not.
pub replay_of-owed :
    (log : List StreamEvent) (s : RunEventStream) (after : ℕ) (stream_modes : List Text)
    → IsHistory log s
    → cursor_expired s after ≡ false
    → replay_of s (some after) stream_modes ≡ owed after stream_modes log
unfolding replay_of cursor_expired
replay_of-owed log s after modes v fresh = sym (
    ap (owed after modes) v.split
    ∙ owed-prefix after 1 modes v.gone s.history (rw v.split at v.numbered)
        (ground (arith, v.evicted)))
