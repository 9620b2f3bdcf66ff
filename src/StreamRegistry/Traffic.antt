-- ===== src/StreamRegistry/Traffic.antt =====
-- streaming/run_streams.py, RunStreamRegistry: what holds after any traffic of calls, the events
-- published on the kept streams among them.
use skeino.Base.{
  ℕ, ◌≤◌, ◌≡◌, refl, sym, ap, ◌∙◌, Bool, true, not, ◌||◌, none, some, List, [], ◌∷◌, arith, length,
  elem, Bool-cases, Option-cases, inl, inr, Dict, get, put,
}
use skeino.Json.{Json}
use skeino.Text.{Text}
use skeino.Stream
use skeino.Stream.{RunEventStream, closed, publish}
use skeino.StreamRegistry.{
  RunStreamRegistry, new_registry, sweep_loop, sweep, open_stream, get_stream, trimmed, retire,
  close_stream, fresh_ref, unmap,
}
use skeino.StreamRegistry.Accounting.{IsWell, new_registry-IsWell}
use skeino.StreamRegistry.Calls.{
  open_stream-IsWell, get_stream-IsWell, close_stream-IsWell, is_some, publish-Alike,
  replaced-IsAccounted, replaced-fresh,
}
use skeino.StreamRegistry.Retention.{length-trimmed}

-- A call, with the readings of the clock that it takes.
pub data Call : Type 0 where
  opens : ℕ → ℕ → ℕ → Bool → Call
  looks_up : ℕ → ℕ → ℕ → Call
  publishes : ℕ → Text → Json → Call
  closes : ℕ → ℕ → ℕ → Call

-- A stream that refuses to publish raises, and nothing changes.
unfoldable pub publish_on : RunStreamRegistry → ℕ → Text → Json → RunStreamRegistry
publish_on r ref event payload = elim (get r.heap ref) [
  | none ↦ r
  | some stream ↦ elim (publish stream event payload) [
    | none ↦ r
    | some (e, stream') ↦ record r { heap = put r.heap ref stream' }
  ]
]

unfoldable pub perform : RunStreamRegistry → Call → RunStreamRegistry
unfolding publish_on
perform r (Call.opens now thread_id run_id resumable) =
    (open_stream now r thread_id run_id resumable).1
perform r (Call.looks_up now thread_id run_id) = (get_stream now r thread_id run_id).1
perform r (Call.publishes ref event payload) = publish_on r ref event payload
perform r (Call.closes now now' ref) = close_stream now now' r ref

unfoldable pub perform_all : RunStreamRegistry → List Call → RunStreamRegistry
unfolding perform
perform_all r [] = r
perform_all r (call ∷ calls) = perform_all (perform r call) calls

publish_on-IsWell :
    (r : RunStreamRegistry) (ref : ℕ) (event : Text) (payload : Json)
    → IsWell r
    → IsWell (publish_on r ref event payload)
unfolding publish_on IsWell
publish_on-IsWell r ref event payload (v, f) = elim (Option-cases (get r.heap ref)) [
  | inl e ↦ rw (e, publish_on) (v, f)
  | inr (s, e) ↦ elim (Option-cases (publish s event payload)) [
    | inl p ↦ rw (e, p, publish_on) (v, f)
    | inr ((ev, s'), p) ↦
        let a = publish-Alike s event payload ev s' p in
        rw (e, p, publish_on)
          (
            replaced-IsAccounted r.heap r.expiry r.expiry r.streams r.streams ref s s' e a.0
                (λ k j h. h) (λ j h. h)
                (λ k h c.
                  let w = v k ref h in
                  let b = w.1 in
                  let same : w.0 ≡ s = cc in w.3 (ap closed same ∙ ap is_some (sym a.1) ∙ c))
                v,
            replaced-fresh r.heap r.next_ref ref s s' e f,
          )
  ]
]

perform-IsWell : (r : RunStreamRegistry) (call : Call) → IsWell r → IsWell (perform r call)
unfolding perform
perform-IsWell r (Call.opens now t k b) w = open_stream-IsWell now r t k b w
perform-IsWell r (Call.looks_up now t k) w = get_stream-IsWell now r t k w
perform-IsWell r (Call.publishes ref event payload) w = publish_on-IsWell r ref event payload w
perform-IsWell r (Call.closes now now' ref) w = close_stream-IsWell now now' r ref w

perform_all-IsWell :
    (r : RunStreamRegistry) (calls : List Call) → IsWell r → IsWell (perform_all r calls)
unfolding perform_all
perform_all-IsWell r [] w = w
perform_all-IsWell r (call ∷ calls) w =
    perform_all-IsWell (perform r call) calls (perform-IsWell r call w)

new_traffic-IsWell :
    (a b c d : ℕ) (calls : List Call) → IsWell (perform_all (new_registry a b c d) calls)
new_traffic-IsWell a b c d calls =
    perform_all-IsWell (new_registry a b c d) calls (new_registry-IsWell a b c d)

accounts :
    (r : RunStreamRegistry) (run_id ref : ℕ)
    → IsWell r
    → get r.streams run_id ≡ some ref
    → (stream : RunEventStream) × (get r.heap ref ≡ some stream)
      × (stream.run_id ≡ run_id)
      × ((not (closed stream) || elem ref r.expiry) ≡ true)
unfolding IsWell
accounts r run_id ref (v, f) h =
    let w = v run_id ref h in
    (
      w.0,
      w.1,
      w.2,
      elim (Bool-cases (closed w.0)) [
        | inl t ↦ let m = w.3 t in ground (arith, t, m)
        | inr u ↦ ground (arith, u)
      ],
    )

-- Whatever streams a new registry opens, looks up, publishes on and closes: each mapped reference
-- leads to a stream that carries the run id it is mapped under, and each mapped stream that is
-- closed stands in the expiry queue, so that a later sweep or trim drops it.
pub perform_all_accounts :
    (retention max_retained max_events max_bytes : ℕ) (calls : List Call) (run_id ref : ℕ)
    → get
        (perform_all (new_registry retention max_retained max_events max_bytes) calls).streams
        run_id
      ≡ some ref
    → let r = perform_all (new_registry retention max_retained max_events max_bytes) calls in
      (stream : RunEventStream) × (get r.heap ref ≡ some stream)
      × (stream.run_id ≡ run_id)
      × ((not (closed stream) || elem ref r.expiry) ≡ true)
perform_all_accounts a b c d calls run_id ref h =
    accounts _ run_id ref (new_traffic-IsWell a b c d calls) h

unfoldable IsBounded : RunStreamRegistry → ℕ → Type 0
IsBounded r m = (length r.expiry ≤ m) × (r.max_retained_streams ≡ m)

length-sweep_loop :
    (now retention : ℕ) (heap : Dict RunEventStream) (expiry : List ℕ) (streams : Dict ℕ)
    → length (sweep_loop now retention heap expiry streams).0 ≤ length expiry
unfolding sweep_loop
length-sweep_loop now retention heap [] streams = omega arith
length-sweep_loop now retention heap (ref ∷ expiry) streams =
    let l = length-sweep_loop now retention heap expiry (unmap heap ref streams) in
    elim (Bool-cases (fresh_ref now retention heap ref)) [
      | inl t ↦ rw (t, sweep_loop) (omega arith)
      | inr f ↦ rw (f, sweep_loop) (omega arith)
    ]

sweep-IsBounded : (now m : ℕ) (r : RunStreamRegistry) → IsBounded r m → IsBounded (sweep now r) m
unfolding sweep IsBounded
sweep-IsBounded now m r (b, e) =
    let l = length-sweep_loop now r.retention r.heap r.expiry r.streams in (omega arith, e)

retire-max :
    (r : RunStreamRegistry) (ref : ℕ) (s : RunEventStream)
    → (retire r ref s).max_retained_streams ≡ r.max_retained_streams
unfolding retire
retire-max r ref s = ground arith

trimmed-IsBounded :
    (r : RunStreamRegistry) (m : ℕ) → r.max_retained_streams ≡ m → IsBounded (trimmed r) m
unfolding trimmed IsBounded
trimmed-IsBounded r m e =
    let l : length (trimmed r).expiry ≤ r.max_retained_streams = length-trimmed r in
    (omega arith, e)

close_stream-IsBounded :
    (now now' : ℕ) (r : RunStreamRegistry) (ref m : ℕ)
    → IsBounded r m
    → IsBounded (close_stream now now' r ref) m
unfolding close_stream sweep IsBounded
close_stream-IsBounded now now' r ref m (b, e) = elim (Option-cases (get r.heap ref)) [
  | inl n ↦ rw (n, close_stream) (b, e)
  | inr (s, n) ↦
      let r₁ = record r { heap = put r.heap ref (Stream.close s now) } in
      rw (n, close_stream)
        (trimmed-IsBounded (sweep now' (retire r₁ ref s)) m (retire-max r₁ ref s ∙ e))
]

perform-IsBounded :
    (r : RunStreamRegistry) (call : Call) (m : ℕ) → IsBounded r m → IsBounded (perform r call) m
unfolding perform
perform-IsBounded r (Call.opens now t k b) m w =
    unfold open_stream IsBounded in sweep-IsBounded now m r w
perform-IsBounded r (Call.looks_up now t k) m w =
    unfold get_stream IsBounded in sweep-IsBounded now m r w
perform-IsBounded r (Call.publishes ref event payload) m w =
    unfold publish_on IsBounded in ground arith
perform-IsBounded r (Call.closes now now' ref) m w = close_stream-IsBounded now now' r ref m w

perform_all-IsBounded :
    (r : RunStreamRegistry) (calls : List Call) (m : ℕ)
    → IsBounded r m
    → IsBounded (perform_all r calls) m
unfolding perform_all
perform_all-IsBounded r [] m w = w
perform_all-IsBounded r (call ∷ calls) m w =
    perform_all-IsBounded (perform r call) calls m (perform-IsBounded r call m w)

-- Whatever streams a new registry opens, looks up, publishes on and closes, no more than
-- `max_retained_streams` finished streams wait in the expiry queue.
pub perform_all_bounded :
    (retention max_retained max_events max_bytes : ℕ) (calls : List Call)
    → length (perform_all (new_registry retention max_retained max_events max_bytes) calls).expiry
      ≤ max_retained
perform_all_bounded a b c d calls =
    let w : IsBounded (new_registry a b c d) b =
      unfold IsBounded new_registry in (omega arith, refl) in
    let e = perform_all-IsBounded (new_registry a b c d) calls b w in unfold IsBounded in e.0
