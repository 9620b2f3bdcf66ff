-- ===== src/StreamRegistry/Accounting.antt =====
-- No finished stream is kept beyond the expiry queue: the map and the queue agree after every call.
use skeino.Base.{
  ◌<◌, ℕ, suc, ◌≡◌, ◌≢◌, sym, subst, ◌∙◌, true, false, some, List, [], ◌∷◌, arith, ◌==◌, ==_iff,
  ltb, length, elem, Bool-cases, Option-cases, inl, inr, Dict, get, put, remove, get-put_self,
  get-put_ne, get-remove_self, get-remove_ne,
}
use skeino.Stream.{RunEventStream, closed}
use skeino.StreamRegistry.{
  RunStreamRegistry, unmap, fresh_ref, sweep_loop, sweep, trim, trimmed, new_registry,
}

-- A map entry is filed under its stream's own run id, and a finished stream is in the queue.
abbrev pub IsAccounted : Dict RunEventStream → List ℕ → Dict ℕ → Type 0
IsAccounted heap expiry streams =
    (run_id ref : ℕ)
    → get streams run_id ≡ some ref
    → (stream : RunEventStream) × (get heap ref ≡ some stream)
      × (stream.run_id ≡ run_id)
      × (closed stream ≡ true → elem ref expiry ≡ true)

module _ (heap : Dict RunEventStream) (ref : ℕ) (streams : Dict ℕ) where
  -- What `unmap` leaves was there before, and is another stream.
  unmap_lem :
      (expiry : List ℕ)
      → IsAccounted heap expiry streams
      → (k j : ℕ) → get (unmap heap ref streams) k ≡ some j
      → (get streams k ≡ some j) × (j ≢ ref)
  unfolding unmap
  unmap_lem expiry v k j h = elim (Option-cases (get heap ref)) [
    | inl e ↦
        let h' : get streams k ≡ some j = rw (e, unmap) at h in
        (h', λ same. let w = v k j h' in let a = w.1 in absurd (cc))
    | inr (stream, e) ↦ elim (Option-cases (get streams stream.run_id)) [
      | inl e' ↦
          let h' : get streams k ≡ some j = rw (e, e', unmap) at h in
          (h', λ same. let w = v k j h' in let a = w.1 in let b = w.2 in absurd (cc))
      | inr (current, e') ↦ elim (Bool-cases (current == ref)) [
        | inl t ↦
            let h₁ : get (remove streams stream.run_id) k ≡ some j = rw (e, e', t, unmap) at h in
            elim (Bool-cases (stream.run_id == k)) [
              | inl t' ↦
                  let p : stream.run_id ≡ k = (==_iff stream.run_id k).0 t' in
                  let q = get-remove_self streams k in absurd (cc)
              | inr f' ↦
                  let n : stream.run_id ≢ k = ground (arith, f') in
                  let q = get-remove_ne streams stream.run_id k n in
                  let h' : get streams k ≡ some j = sym q ∙ h₁ in
                  (h', λ same. let w = v k j h' in let a = w.1 in let b = w.2 in n cc)
            ]
        | inr f ↦
            let h' : get streams k ≡ some j = rw (e, e', f, unmap) at h in
            (
              h',
              λ same.
                  let w = v k j h' in
                  let a = w.1 in
                  let b = w.2 in let c : current ≡ ref = cc in absurd (ground (arith, f, c)),
            )
      ]
    ]
  ]

unmap-IsAccounted :
    (heap : Dict RunEventStream) (ref : ℕ) (streams : Dict ℕ) (expiry : List ℕ)
    → IsAccounted heap (ref ∷ expiry) streams
    → IsAccounted heap expiry (unmap heap ref streams)
unmap-IsAccounted heap ref streams expiry v k j h =
    let l = unmap_lem heap ref streams (ref ∷ expiry) v k j h in
    let w = v k j l.0 in
    let ne = l.1 in (w.0, w.1, w.2, λ c. let m = w.3 c in ground (arith, m, ne))

sweep_loop-IsAccounted :
    (now retention : ℕ) (heap : Dict RunEventStream) (expiry : List ℕ) (streams : Dict ℕ)
    → IsAccounted heap expiry streams
    → IsAccounted heap
        (sweep_loop now retention heap expiry streams).0
        (sweep_loop now retention heap expiry streams).1
unfolding sweep_loop
sweep_loop-IsAccounted now retention heap [] streams v = v
sweep_loop-IsAccounted now retention heap (ref ∷ expiry) streams v =
    elim (Bool-cases (fresh_ref now retention heap ref)) [
      | inl t ↦ rw t v
      | inr f ↦ rw f (
          sweep_loop-IsAccounted now retention heap expiry (unmap heap ref streams)
            (unmap-IsAccounted heap ref streams expiry v))
    ]

trim-IsAccounted :
    (m : ℕ) (heap : Dict RunEventStream) (expiry : List ℕ) (streams : Dict ℕ)
    → IsAccounted heap expiry streams
    → IsAccounted heap (trim m heap expiry streams).0 (trim m heap expiry streams).1
unfolding trim
trim-IsAccounted m heap [] streams v = v
trim-IsAccounted m heap (ref ∷ expiry) streams v =
    elim (Bool-cases (ltb m (length (ref ∷ expiry)))) [
      | inl t ↦ rw t (
          trim-IsAccounted m heap expiry (unmap heap ref streams)
            (unmap-IsAccounted heap ref streams expiry v))
      | inr f ↦ rw f v
    ]

-- The registry's invariant: the map, the queue and the heap agree, and references are fresh.
unfoldable pub IsWell : RunStreamRegistry → Type 0
IsWell r =
    IsAccounted r.heap r.expiry r.streams
    × ((ref : ℕ) (stream : RunEventStream) → get r.heap ref ≡ some stream → ref < r.next_ref)

pub new_registry-IsWell : (a b c d : ℕ) → IsWell (new_registry a b c d)
unfolding IsWell new_registry
new_registry-IsWell a b c d = (λ run_id ref h. absurd (cc), λ ref stream h. absurd (cc))

pub sweep-IsWell : (now : ℕ) (r : RunStreamRegistry) → IsWell r → IsWell (sweep now r)
unfolding IsWell sweep
sweep-IsWell now r (v, f) = (sweep_loop-IsAccounted now r.retention r.heap r.expiry r.streams v, f)

pub trimmed-IsWell : (r : RunStreamRegistry) → IsWell r → IsWell (trimmed r)
unfolding IsWell trimmed
trimmed-IsWell r (v, f) = (trim-IsAccounted r.max_retained_streams r.heap r.expiry r.streams v, f)

pub open_swept-IsWell :
    (r : RunStreamRegistry) (run_id : ℕ) (stream : RunEventStream)
    → stream.run_id ≡ run_id
    → closed stream ≡ false
    → IsWell r
    → IsWell (record r {
      streams = put r.streams run_id r.next_ref;
      heap = put r.heap r.next_ref stream;
      next_ref = suc r.next_ref;
    })
unfolding IsWell
open_swept-IsWell r run_id stream er ec (v, f) = (
  λ k j h. elim (Bool-cases (run_id == k)) [
    | inl t ↦
        let e : run_id ≡ k = (==_iff run_id k).0 t in
        let p = get-put_self r.streams run_id r.next_ref in
        let q : r.next_ref ≡ j = cc in
        let g = get-put_self r.heap r.next_ref stream in
        (
          stream,
          subst (λ x. get (put r.heap r.next_ref stream) x ≡ some stream) q g,
          er ∙ e,
          λ c. absurd (cc),
        )
    | inr t ↦
        let n : run_id ≢ k = ground (arith, t) in
        let h' = sym (get-put_ne r.streams run_id r.next_ref k n) ∙ h in
        let w = v k j h' in
        let b = f j w.0 w.1 in
        let n' : r.next_ref ≢ j = omega arith in
        (w.0, get-put_ne r.heap r.next_ref stream j n' ∙ w.1, w.2, w.3)
  ],
  λ j s h. elim (Bool-cases (r.next_ref == j)) [
    | inl t ↦ let e = (==_iff r.next_ref j).0 t in omega arith
    | inr t ↦
        let n : r.next_ref ≢ j = ground (arith, t) in
        let b = f j s (sym (get-put_ne r.heap r.next_ref stream j n) ∙ h) in omega arith
  ],
)
