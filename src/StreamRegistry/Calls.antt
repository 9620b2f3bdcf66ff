-- ===== src/StreamRegistry/Calls.antt =====
-- streaming/run_streams.py: every call of the registry, and `publish` on a stream that it keeps,
-- leaves the map, the expiry queue and the streams in agreement.
use skeino.Base.{
  ℕ, ◌<◌, ◌+◌, ◌≡◌, ◌≢◌, refl, sym, subst, ap, ◌∙◌, Bool, true, false, not, ◌||◌, Option, none,
  some, List, [], ◌∷◌, ◌++◌, arith, ◌==◌, ==_iff, if◌then◌else◌, elem, Bool-cases, Option-cases,
  inl, inr, Dict, get, put, remove, get-put_self, get-put_ne, get-remove_self, get-remove_ne,
}
use skeino.Json.{Json}
use skeino.Text.{Text}
use skeino.Stream
use skeino.Stream.{
  StreamEvent, RunEventStream, closed, deliver, fan_out, record_history, publish, release_all,
  detach_lagging, put_nowait, new_stream, full, Item, stamped,
}
use skeino.StreamRegistry.{RunStreamRegistry, sweep, open_stream, get_stream, retire, close_stream}
use skeino.StreamRegistry.Accounting.{
  IsAccounted, IsWell, sweep-IsWell, trimmed-IsWell, open_swept-IsWell,
}

-- What the registry reads of a stream.
abbrev pub Alike : RunEventStream → RunEventStream → Type 0
Alike s s' = (s'.run_id ≡ s.run_id) × (s'.closed_at ≡ s.closed_at)

release_all-Alike : (s : RunEventStream) (subs : Dict (List Text)) → Alike s (release_all s subs)
unfolding release_all put_nowait
release_all-Alike s [] = (refl, refl)
release_all-Alike s ((q, m) ∷ subs) =
    let s₁ = if full s q then s else put_nowait s q Item.finished in
    let a : Alike s s₁ = ground arith in let b = release_all-Alike s₁ subs in (b.0 ∙ a.0, b.1 ∙ a.1)

deliver-Alike :
    (e : StreamEvent) (s : RunEventStream) (q : ℕ) (m : List Text) → Alike s (deliver e s q m)
unfolding deliver detach_lagging put_nowait
deliver-Alike e s q m = ground arith

fan_out-Alike :
    (e : StreamEvent) (s : RunEventStream) (subs : Dict (List Text)) → Alike s (fan_out e s subs)
unfolding fan_out
fan_out-Alike e s [] = (refl, refl)
fan_out-Alike e s ((q, m) ∷ subs) =
    let a = deliver-Alike e s q m in
    let b = fan_out-Alike e (deliver e s q m) subs in (b.0 ∙ a.0, b.1 ∙ a.1)

record_history-Alike : (e : StreamEvent) (s : RunEventStream) → Alike s (record_history e s)
unfolding record_history
record_history-Alike e s = ground arith

pub publish-Alike :
    (s : RunEventStream) (event : Text) (payload : Json) (e : StreamEvent) (s' : RunEventStream)
    → publish s event payload ≡ some (e, s')
    → Alike s s'
unfolding publish
publish-Alike s event payload e s' h = elim (Bool-cases (closed s)) [
  | inl t ↦ absurd (let h' : none ≡ some (e, s') = rw t at h in cc)
  | inr f ↦
      let e' = stamped s event payload in
      let s₁ = record_history e' (record s { next_id = s.next_id + 1 }) in
      let a = record_history-Alike e' (record s { next_id = s.next_id + 1 }) in
      let b = fan_out-Alike e' s₁ s₁.subscribers in
      let h' : some (e', fan_out e' s₁ s₁.subscribers) ≡ some (e, s') = rw f at h in
      let h'' : fan_out e' s₁ s₁.subscribers ≡ s' = cc in
      subst (λ x. Alike s x) h'' (b.0 ∙ a.0, b.1 ∙ a.1)
]

abbrev pub is_some : Option ℕ → Bool
is_some o = elim o [ none ↦ false | some t ↦ true ]

close_lem :
    (s : RunEventStream) (now : ℕ)
    → ((Stream.close s now).run_id ≡ s.run_id) × (closed (Stream.close s now) ≡ true)
unfolding Stream.close
close_lem s now = elim (Bool-cases (closed s)) [
  | inl t ↦ rw t (refl, t)
  | inr f ↦
      let l = release_all-Alike (record s { closed_at = some now }) s.subscribers in
      rw f (l.0, ap is_some l.1)
]

elem-append_left : (j : ℕ) (xs ys : List ℕ) → elem j xs ≡ true → elem j (xs ++ ys) ≡ true
elem-append_left j [] ys h = absurd (cc)
elem-append_left j (x ∷ xs) ys h = ground (arith, elem-append_left j xs ys)

elem-append_last : (j : ℕ) (xs : List ℕ) → elem j (xs ++ j ∷ []) ≡ true
elem-append_last j [] = ground arith
elem-append_last j (x ∷ xs) = ground (arith, elem-append_last j xs)

-- The heap object changes as a stream does, keeping its run id; closing it needs a place in the
-- queue, or no place in the map.
pub replaced-IsAccounted :
    (heap : Dict RunEventStream) (expiry expiry' : List ℕ) (streams streams' : Dict ℕ)
    → (ref : ℕ) (s s' : RunEventStream) → get heap ref ≡ some s
    → s'.run_id ≡ s.run_id
    → ((k j : ℕ) → get streams' k ≡ some j → get streams k ≡ some j)
    → ((j : ℕ) → elem j expiry ≡ true → elem j expiry' ≡ true)
    → ((k : ℕ) → get streams' k ≡ some ref → closed s' ≡ true → elem ref expiry' ≡ true)
    → IsAccounted heap expiry streams
    → IsAccounted (put heap ref s') expiry' streams'
replaced-IsAccounted heap expiry expiry' streams streams' ref s s' g er sub more here v k j h =
    let w = v k j (sub k j h) in
    elim (Bool-cases (ref == j)) [
      | inl t ↦
          let e : ref ≡ j = (==_iff ref j).0 t in
          let p = get-put_self heap ref s' in
          let a = w.1 in
          let b = w.2 in
          let c : s.run_id ≡ k = cc in
          (
            s',
            subst (λ x. get (put heap ref s') x ≡ some s') e p,
            er ∙ c,
            subst (λ x. closed s' ≡ true → elem x expiry' ≡ true) e
                (here k (subst (λ x. get streams' k ≡ some x) (sym e) h)),
          )
      | inr t ↦
          let n : ref ≢ j = ground (arith, t) in
          (w.0, get-put_ne heap ref s' j n ∙ w.1, w.2, λ c. more j (w.3 c))
    ]

pub replaced-fresh :
    (heap : Dict RunEventStream) (bound ref : ℕ) (s s' : RunEventStream)
    → get heap ref ≡ some s
    → ((j : ℕ) (t : RunEventStream) → get heap j ≡ some t → j < bound)
    → (j : ℕ) (t : RunEventStream) → get (put heap ref s') j ≡ some t
    → j < bound
replaced-fresh heap bound ref s s' g f j t h = elim (Bool-cases (ref == j)) [
  | inl t ↦ let e : ref ≡ j = (==_iff ref j).0 t in let b = f ref s g in omega arith
  | inr u ↦ let n : ref ≢ j = ground (arith, u) in f j t (sym (get-put_ne heap ref s' j n) ∙ h)
]

retire-IsWell :
    (r : RunStreamRegistry) (ref now : ℕ) (s : RunEventStream)
    → get r.heap ref ≡ some s
    → IsWell r
    → IsWell (retire (record r { heap = put r.heap ref (Stream.close s now) }) ref s)
unfolding retire IsWell
retire-IsWell r ref now s g (v, f) =
    let s' = Stream.close s now in
    let l = close_lem s now in
    let fresh = replaced-fresh r.heap r.next_ref ref s s' g f in
    elim (Bool-cases (not s.resumable || r.retention == 0)) [
      | inl t ↦
          let sub : (k j : ℕ)
              → get (remove r.streams s.run_id) k ≡ some j
              → get r.streams k ≡ some j =
            λ k j h. elim (Bool-cases (s.run_id == k)) [
              | inl e ↦
                  let p : s.run_id ≡ k = (==_iff s.run_id k).0 e in
                  let q = get-remove_self r.streams s.run_id in absurd (cc)
              | inr e ↦ sym (get-remove_ne r.streams s.run_id k (ground (arith, e))) ∙ h
            ] in
          let gone : (k : ℕ) → get (remove r.streams s.run_id) k ≡ some ref → ⊥ = λ k h.
            let w = v k ref (sub k ref h) in
            let a = w.1 in
            let b = w.2 in
            let p : s.run_id ≡ k = cc in let q = get-remove_self r.streams s.run_id in cc in
          rw t (
            replaced-IsAccounted r.heap r.expiry r.expiry r.streams (remove r.streams s.run_id) ref
                s s' g l.0 sub (λ j h. h) (λ k h c. absurd (gone k h)) v,
            fresh,
          )
      | inr t ↦ elim (Bool-cases (not (closed s))) [
        | inl u ↦
            rw (t, u)
              (
                replaced-IsAccounted r.heap r.expiry (r.expiry ++ ref ∷ []) r.streams r.streams ref
                    s s' g l.0 (λ k j h. h) (λ j h. elem-append_left j r.expiry (ref ∷ []) h)
                    (λ k h c. elem-append_last ref r.expiry) v,
                fresh,
              )
        | inr u ↦
            rw (t, u)
              (
                replaced-IsAccounted r.heap r.expiry r.expiry r.streams r.streams ref s s' g l.0
                    (λ k j h. h) (λ j h. h)
                    (λ k h c.
                      let w = v k ref h in
                      let a = w.1 in
                      let shut : closed s ≡ true = ground (arith, u) in
                      let same : w.0 ≡ s = cc in w.3 (ap (λ x. closed x) same ∙ shut))
                    v,
                fresh,
              )
      ]
    ]

pub open_stream-IsWell :
    (now : ℕ) (r : RunStreamRegistry) (thread_id run_id : ℕ) (resumable : Bool)
    → IsWell r
    → IsWell (open_stream now r thread_id run_id resumable).1
unfolding open_stream new_stream
open_stream-IsWell now r thread_id run_id resumable w =
    open_swept-IsWell (sweep now r) run_id _ refl refl (sweep-IsWell now r w)

pub get_stream-IsWell :
    (now : ℕ) (r : RunStreamRegistry) (thread_id run_id : ℕ)
    → IsWell r
    → IsWell (get_stream now r thread_id run_id).1
unfolding get_stream
get_stream-IsWell now r thread_id run_id w = sweep-IsWell now r w

pub close_stream-IsWell :
    (now now' : ℕ) (r : RunStreamRegistry) (ref : ℕ)
    → IsWell r
    → IsWell (close_stream now now' r ref)
unfolding close_stream
close_stream-IsWell now now' r ref w = elim (Option-cases (get r.heap ref)) [
  | inl e ↦ rw (e, close_stream) w
  | inr (s, e) ↦
      rw (e, close_stream) (trimmed-IsWell _ (sweep-IsWell now' _ (retire-IsWell r ref now s e w)))
]
