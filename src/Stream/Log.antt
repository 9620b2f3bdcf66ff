-- ===== src/Stream/Log.antt =====
-- The events that a stream has published, in order: lists numbered from a given id, and what a
-- cut-off at an id does to them.
use skeino.Base.{
  All, ℕ, suc, ◌+◌, ◌≤◌, ◌<◌, ◌≡◌, refl, subst, ◌&&◌, List, [], ◌∷◌, ◌++◌, arith, ltb, length, keep,
  Bool-cases, inl, inr,
}
use native.Mathlib.Nat.{add-zero}
use skeino.Text.{Text}
use skeino.Stream.{StreamEvent, stream_mode_matches, frame_bytes}

-- The events are numbered n, n + 1, ...
abbrev pub Consecutive : ℕ → List StreamEvent → Type 0
Consecutive n [] = Unit
Consecutive n (e ∷ es) = (e.event_id ≡ n) × Consecutive (suc n) es

abbrev pub total_bytes : List StreamEvent → ℕ
total_bytes [] = 0
total_bytes (e ∷ es) = frame_bytes e + total_bytes es

-- The events after an id that match the stream modes: what a subscriber at that id is owed.
abbrev pub owed : ℕ → List Text → List StreamEvent → List StreamEvent
owed after stream_modes =
    keep (λ e. ltb after e.event_id && stream_mode_matches e.event stream_modes)

pub Consecutive-append :
    (n : ℕ) (es : List StreamEvent) (e : StreamEvent)
    → Consecutive n es
    → e.event_id ≡ n + length es
    → Consecutive n (es ++ e ∷ [])
Consecutive-append n [] e c h = (omega arith, tt)
Consecutive-append n (x ∷ es) e c h = (c.0, Consecutive-append (suc n) es e c.1 (omega arith))

pub total_bytes-append :
    (es : List StreamEvent) (e : StreamEvent)
    → total_bytes (es ++ e ∷ []) ≡ total_bytes es + frame_bytes e
total_bytes-append [] e = omega arith
total_bytes-append (x ∷ es) e = omega (arith, total_bytes-append es e)

-- What lies at or below the cut-off is owed to nobody.
pub owed-prefix :
    (after n : ℕ) (stream_modes : List Text) (gone es : List StreamEvent)
    → Consecutive n (gone ++ es)
    → n + length gone ≤ suc after
    → owed after stream_modes (gone ++ es) ≡ owed after stream_modes es
owed-prefix after n m [] es c h = refl
owed-prefix after n m (x ∷ gone) es c h = ground (arith, owed-prefix after (suc n) m gone es c.1)

pub Consecutive-suffix :
    (n : ℕ) (gone es : List StreamEvent)
    → Consecutive n (gone ++ es)
    → Consecutive (n + length gone) es
Consecutive-suffix n [] es c = rw add-zero c
Consecutive-suffix n (x ∷ gone) es c =
    subst (λ k. Consecutive k es) (omega arith) (Consecutive-suffix (suc n) gone es c.1)

-- Nothing is owed beyond the last event.
pub owed-none :
    (after n : ℕ) (stream_modes : List Text) (es : List StreamEvent)
    → Consecutive n es
    → n + length es ≤ suc after
    → owed after stream_modes es ≡ []
owed-none after n m [] c h = refl
owed-none after n m (x ∷ es) c h = ground (arith, owed-none after (suc n) m es c.1)

-- Both cut-offs lie below the list.
owed-below :
    (a b n : ℕ) (m : List Text) (es : List StreamEvent)
    → Consecutive n es
    → a < n
    → b < n
    → owed a m es ≡ owed b m es
owed-below a b n m [] c h k = refl
owed-below a b n m (x ∷ es) c h k = ground (arith, owed-below a b (suc n) m es c.1)

abbrev pub After : ℕ → List StreamEvent → Type 0
After n = All (λ e. n < e.event_id)

pub owed-After : (a : ℕ) (m : List Text) (es : List StreamEvent) → After a (owed a m es)
owed-After a m [] = tt
owed-After a m (x ∷ es) = ground (arith, owed-After a m es)

-- After the first owed event, the others are owed.
pub owed-step :
    (a n : ℕ) (m : List Text) (es : List StreamEvent) (e : StreamEvent) (xs : List StreamEvent)
    → Consecutive n es
    → owed a m es ≡ e ∷ xs
    → owed e.event_id m es ≡ xs
owed-step a n m [] e xs c h = absurd (cc)
owed-step a n m (x ∷ es) e xs c h =
    elim (Bool-cases (ltb a x.event_id && stream_mode_matches x.event m)) [
      | inl hit ↦
          let h' : x ∷ owed a m es ≡ e ∷ xs = rw hit at h in
          let head : x ≡ e = cc in
          let rest : owed a m es ≡ xs = cc in
          subst (λ (y : StreamEvent). owed y.event_id m (x ∷ es) ≡ xs) head
            (ground (arith, owed-below x.event_id a (suc n) m es c.1))
      | inr miss ↦
          let h' : owed a m es ≡ e ∷ xs = rw miss at h in
          let above : a < e.event_id = (subst (After a) h' (owed-After a m es)).0 in
          ground (arith, owed-step a (suc n) m es e xs c.1 h')
    ]

-- `[e for e in es if e.event_id > n]`, what a drain does not skip.
abbrev pub after_id : ℕ → List StreamEvent → List StreamEvent
after_id n = keep (λ e. ltb n e.event_id)

pub after_id-After : (n : ℕ) (es : List StreamEvent) → After n es → after_id n es ≡ es
after_id-After n [] h = refl
after_id-After n (x ∷ es) h = ground (arith, after_id-After n es h.1)

pub after_id-after_id :
    (a b : ℕ) (es : List StreamEvent) → a ≤ b → after_id b (after_id a es) ≡ after_id b es
after_id-after_id a b [] h = refl
after_id-after_id a b (x ∷ es) h = ground (arith, after_id-after_id a b es h)

pub After-append_right : (n : ℕ) (xs ys : List StreamEvent) → After n (xs ++ ys) → After n ys
After-append_right n [] ys h = h
After-append_right n (x ∷ xs) ys h = After-append_right n xs ys h.1

-- The head of what is owed lies after the cut-off, and the rest of it after the head.
pub owed-head :
    (a n : ℕ) (m : List Text) (es : List StreamEvent) (e : StreamEvent) (xs : List StreamEvent)
    → Consecutive n es
    → owed a m es ≡ e ∷ xs
    → (a < e.event_id) × After e.event_id xs
owed-head a n m es e xs c h = (
  (subst (After a) h (owed-After a m es)).0,
  subst (After e.event_id) (owed-step a n m es e xs c h) (owed-After e.event_id m es),
)
