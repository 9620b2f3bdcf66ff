-- ===== src/Sqlite/Claims.antt =====
-- persistence/sqlite_store.py: the claims of `fail_stale_runs` against the loop of the in-memory store.
use skeino.Base.{
  ℕ, ◌≡◌, refl, sym, ap, subst, ◌∙◌, String, Bool, true, false, not, ◌&&◌, ◌||◌, List, [], ◌∷◌,
  ◌++◌, arith, ◌==◌, ==_iff, ltb, leb, keep, elem, All, All-append, contains, Unique, Bool-cases,
  inl, inr,
}
use mathlib.Core.List.{append_assoc}
use skeino.Schemas.{RunRow, in_flight}
use skeino.Store.{is_stale, failed_row, fail_loop}
use skeino.Tables.{update_where, rowcount}
use skeino.Sqlite.{unclaimed, claim_each}
use skeino.Tables.Commands.{run_key}
use skeino.Tables.Lookups.{stale, swept_rows, failures, fail_loop-keyed}
use skeino.Tables.Keyed.{keyed, untouched}

abbrev Unread : ℕ → List RunRow → Type 0
Unread k = All (λ row. (row.run_id == k) ≡ false)

claim_passes :
    (read : RunRow) (set : RunRow → RunRow) (before rows : List RunRow)
    → Unread read.run_id before
    → update_where (unclaimed read) set (before ++ rows)
      ≡ before ++ update_where (unclaimed read) set rows
claim_passes read set [] rows h = refl
claim_passes read set (row ∷ before) rows h =
    let n = h.0 in rw n (ap (λ l. row ∷ l) (claim_passes read set before rows h.1))

claim_counts :
    (read : RunRow) (before rows : List RunRow)
    → in_flight read.status ≡ true
    → ltb 0 (rowcount (unclaimed read) (before ++ read ∷ rows)) ≡ true
claim_counts read [] rows h = ground (arith, h)
claim_counts read (row ∷ before) rows h = ground (arith, claim_counts read before rows h)

module _ (now cutoff : ℕ) (excluded : List ℕ) (error : String) where
  -- The rows before the ones still to be claimed have other ids.
  abbrev Apart : List RunRow → List RunRow → Type 0
  Apart before rows = All (λ row. contains (keyed run_key rows) row.run_id ≡ false) before

  Unread-head :
      (before : List RunRow) (row : RunRow) (rows : List RunRow)
      → Apart before (row ∷ rows)
      → Unread row.run_id before × Apart before rows
  Unread-head [] row rows h = (tt, tt)
  Unread-head (b ∷ before) row rows h =
      let t = Unread-head before row rows h.1 in
      ((ground (arith, h.0), t.0), (ground (arith, h.0), t.1))

  one_more :
      (before : List RunRow) (row row' : RunRow) (rows : List RunRow)
      → row'.run_id ≡ row.run_id
      → Apart before rows
      → contains (keyed run_key rows) row.run_id ≡ false
      → Apart (before ++ row' ∷ []) rows
  one_more before row row' rows e h n =
      All-append _ before (row' ∷ []) h
        (subst (λ k. contains (keyed run_key rows) k ≡ false) (sym e) n, tt)

  claim_one :
      (before : List RunRow) (row : RunRow) (rows : List RunRow)
      → in_flight row.status ≡ true
      → Unread row.run_id before
      → contains (keyed run_key rows) row.run_id ≡ false
      → update_where (unclaimed row) (failed_row now error) (before ++ row ∷ rows)
        ≡ before ++ failed_row now error row ∷ rows
  claim_one before row rows t h n =
      let test : RunRow → Bool = λ r. r.updated_at == row.updated_at && in_flight r.status in
      let e = untouched run_key test (failed_row now error) rows row.run_id n in
      claim_passes row (failed_row now error) before (row ∷ rows) h
      ∙ rw (
        (==_iff row.run_id row.run_id).1 refl,
        (==_iff row.updated_at row.updated_at).1 refl,
        t,
        e,
      )

  abbrev skips : RunRow → Bool
  skips row = elem row.run_id excluded || leb cutoff row.updated_at

  stale_when_read :
      (row : RunRow) → in_flight row.status ≡ true → stale cutoff excluded row ≡ not (skips row)
  unfolding is_stale
  stale_when_read row t = ground (arith, t)

  stale_idle : (row : RunRow) → in_flight row.status ≡ false → stale cutoff excluded row ≡ false
  unfolding is_stale
  stale_idle row t = rw t

  abbrev reads : List RunRow → List RunRow
  reads = keep (λ r. in_flight r.status)

  -- The claims of the rows that were read, in a table where those before them are done.
  claims :
      (before rows : List RunRow)
      → Unique (keyed run_key rows)
      → Apart before rows
      → claim_each now cutoff excluded error (reads rows) (before ++ rows) ≡ (
        failures now cutoff excluded error rows,
        before ++ swept_rows now cutoff excluded error rows,
      )
  unfolding claim_each failed_row
  claims before [] u h = refl
  claims before (row ∷ rows) u h =
      let t = Unread-head before row rows h in
      let n : contains (keyed run_key rows) row.run_id ≡ false = u.0 in
      let rest : (row' : RunRow)
          → row'.run_id ≡ row.run_id
          → claim_each now cutoff excluded error (reads rows) (before ++ row' ∷ rows) ≡ (
            failures now cutoff excluded error rows,
            before ++ row' ∷ swept_rows now cutoff excluded error rows,
          ) =
        λ row' e.
          ap (claim_each now cutoff excluded error (reads rows))
            (sym (append_assoc before (row' ∷ []) rows))
          ∙ claims (before ++ row' ∷ []) rows u.1 (one_more before row row' rows e t.1 n)
          ∙ ap (λ l. (failures now cutoff excluded error rows, l))
              (append_assoc before (row' ∷ []) (swept_rows now cutoff excluded error rows)) in
      elim (Bool-cases (in_flight row.status)) [
        | inl i ↦ elim (Bool-cases (skips row)) [
          | inl k ↦
              let f : stale cutoff excluded row ≡ false = stale_when_read row i ∙ ap not k in
              rw (i, k, f) (rest row refl)
          | inr k ↦
              let f : stale cutoff excluded row ≡ true = stale_when_read row i ∙ ap not k in
              let c = claim_counts row before rows i in
              let o = claim_one before row rows i t.0 n in
              let r = rest (failed_row now error row) refl in rw (i, k, f, c, o, r) refl
        ]
        | inr i ↦
            let f : stale cutoff excluded row ≡ false = stale_idle row i in
            rw (i, f) (rest row refl)
      ]

  -- Without another process in between, the claims come to what the loop of the in-memory store does.
  pub claim_each-fail_loop :
      (rows : List RunRow)
      → Unique (keyed run_key rows)
      → let r = claim_each now cutoff excluded error (reads rows) rows in
        let m = fail_loop now cutoff excluded error (keyed run_key rows) in
        (r.0 ≡ m.0) × (keyed run_key r.1 ≡ m.1)
  claim_each-fail_loop rows u =
      let c = claims [] rows u tt in
      let l = fail_loop-keyed now cutoff excluded error rows in
      (
        ap (λ p. p.0) c ∙ sym (ap (λ p. p.0) l),
        ap (λ p. keyed run_key p.1) c ∙ sym (ap (λ p. p.1) l),
      )
