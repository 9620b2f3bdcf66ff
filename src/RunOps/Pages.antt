-- ===== src/RunOps/Pages.antt =====
-- ops/runs.py, _release_stuck_threads: a page of the threads, oldest first, and the old ones on it.
use skeino.Base.{
  ℕ, zero, suc, ◌≤◌, ◌<◌, true, false, ◌≡◌, refl, sym, ap, ◌∙◌, List, [], ◌∷◌, ◌++◌, arith, leb,
  leb→le, keep, take, drop, length, All, IsSorted, Bool-cases, inl, inr,
}
use skeino.Schemas.{ThreadRow}
use skeino.RunOps.Stuck.{is_old}

module _ (cutoff : ℕ) where
  abbrev pub old : List ThreadRow → List ThreadRow
  old = keep (is_old cutoff)

  -- In a list sorted by age, nothing old follows what is not.
  none_old :
      (t : ThreadRow) (rows : List ThreadRow)
      → is_old cutoff t ≡ false
      → All (λ u. leb (suc t.updated_at) (suc u.updated_at) ≡ true) rows
      → old rows ≡ []
  none_old t [] h a = refl
  none_old t (u ∷ rows) h a =
      let l = leb→le (suc t.updated_at) (suc u.updated_at) a.0 in
      let r = none_old t rows h a.1 in ground arith

  none_old_page :
      (t : ThreadRow) (n : ℕ) (rows : List ThreadRow)
      → is_old cutoff t ≡ false
      → All (λ u. leb (suc t.updated_at) (suc u.updated_at) ≡ true) rows
      → old (take n rows) ≡ []
  none_old_page t zero rows h a = refl
  none_old_page t (suc n) [] h a = refl
  none_old_page t (suc n) (u ∷ rows) h a =
      let l = leb→le (suc t.updated_at) (suc u.updated_at) a.0 in
      let r = none_old_page t n rows h a.1 in ground arith

  -- A page with a place left for an old thread holds all of them.
  pub page_complete :
      (n : ℕ) (rows : List ThreadRow)
      → IsSorted (λ t. suc t.updated_at) false rows
      → length (old (take n rows)) < n
      → old rows ≡ old (take n rows)
  page_complete zero rows s h = absurd (omega arith)
  page_complete (suc n) [] s h = refl
  page_complete (suc n) (t ∷ rows) s h = elim (Bool-cases (is_old cutoff t)) [
    | inl o ↦
        let h' : suc (length (old (take n rows))) < suc n = rw o at h in
        rw o (ap (λ l. t ∷ l) (page_complete n rows s.1 (omega arith)))
    | inr y ↦ rw y (none_old t rows y s.0 ∙ sym (none_old_page t n rows y s.0))
  ]

  pub old-split :
      (n : ℕ) (rows : List ThreadRow) → old rows ≡ old (take n rows) ++ old (drop n rows)
  old-split zero rows = refl
  old-split (suc n) [] = refl
  old-split (suc n) (t ∷ rows) = ground (arith, old-split n rows)

  pub length-old-le : (n : ℕ) (rows : List ThreadRow) → length (old (take n rows)) ≤ length rows
  length-old-le zero rows = omega arith
  length-old-le (suc n) [] = omega arith
  length-old-le (suc n) (t ∷ rows) = ground (arith, length-old-le n rows)
