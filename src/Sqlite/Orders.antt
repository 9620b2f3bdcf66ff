-- ===== src/Sqlite/Orders.antt =====
-- persistence/sqlite_store.py: the claims of `fail_stale_runs` do not depend on the order in which the
-- scan finds the rows.
use skeino.Base.{
  ℕ, ◌≡◌, refl, sym, ap, subst, ◌∙◌, String, Bool, false, not, ◌&&◌, ◌||◌, List, [], ◌∷◌, arith,
  ◌==◌, ltb, leb, keep, elem, contains, Unique, Bool-cases, inl, inr, map,
}
use mathlib.Core.List.{Perm, foldr}
use mathlib.Core.List.Perm
use skeino.Schemas.{RunRow, in_flight}
use skeino.Store.{failed_row, fail_loop}
use skeino.Tables.{update_where, rowcount}
use skeino.Sqlite.{unclaimed, claim_each}
use skeino.Tables.Commands.{run_key}
use skeino.Tables.Lookups.{none_written}
use skeino.Tables.Permuted.{Unique-perm, keep-Unique, map-keep-perm, update_where_cong}
use skeino.Tables.Keyed.{keyed}
use skeino.Sqlite.Claims.{claim_each-fail_loop}

module _ (now cutoff : ℕ) (excluded : List ℕ) (error : String) where
  -- A row that was read and is not skipped.
  abbrev pub wanted : RunRow → Bool
  wanted read = not (elem read.run_id excluded || leb cutoff read.updated_at)

  abbrev pub wants : RunRow → RunRow → Bool
  wants row read = wanted read && unclaimed read row

  -- The rows that some claim writes.
  abbrev pub claimed_by : List RunRow → RunRow → Bool
  claimed_by reads row = foldr (λ read rest. wants row read || rest) false reads

  pub claimed_by-failed :
      (reads : List RunRow) (row : RunRow) → claimed_by reads (failed_row now error row) ≡ false
  unfolding failed_row
  claimed_by-failed [] row = refl
  claimed_by-failed (read ∷ reads) row = ground (arith, claimed_by-failed reads row)

  claimed_once :
      (read : RunRow) (reads runs : List RunRow)
      → update_where
          (claimed_by reads)
          (failed_row now error)
          (update_where (unclaimed read) (failed_row now error) runs)
        ≡ update_where
            (λ row. unclaimed read row || claimed_by reads row)
            (failed_row now error)
            runs
  claimed_once read reads [] = refl
  claimed_once read reads (row ∷ runs) =
      let ih = claimed_once read reads runs in
      let e = claimed_by-failed reads row in
      elim (Bool-cases (unclaimed read row)) [ inl y ↦ rw (y, e, ih) | inr n ↦ rw (n, ih) ]

  pub table_after :
      (reads runs : List RunRow)
      → (claim_each now cutoff excluded error reads runs).1
        ≡ update_where (claimed_by reads) (failed_row now error) runs
  unfolding claim_each
  table_after [] runs = sym (none_written (failed_row now error) runs)
  table_after (read ∷ reads) runs =
      let skip = elem read.run_id excluded || leb cutoff read.updated_at in
      let next = update_where (unclaimed read) (failed_row now error) runs in
      elim (Bool-cases skip) [
        | inl y ↦ rw y (
            table_after reads runs
            ∙ update_where_cong (claimed_by reads) (claimed_by (read ∷ reads))
                (failed_row now error) runs (λ row. rw y))
        | inr n ↦
            let t =
              table_after reads next
              ∙ claimed_once read reads runs
              ∙ update_where_cong (λ row. unclaimed read row || claimed_by reads row)
                  (claimed_by (read ∷ reads)) (failed_row now error) runs (λ row. rw n) in
            elim (Bool-cases (ltb 0 (rowcount (unclaimed read) runs))) [
              | inl c ↦ rw (n, c) t
              | inr c ↦ rw (n, c) t
            ]
      ]

  pub wants_comm :
      (row : RunRow) (a b : RunRow) (rest : Bool)
      → (wants row a || (wants row b || rest)) ≡ (wants row b || (wants row a || rest))
  wants_comm row a b rest = elim (Bool-cases (wants row a)) [
    | inl y ↦ elim (Bool-cases (wants row b)) [ inl z ↦ rw (y, z) | inr z ↦ rw (y, z) ]
    | inr n ↦ rw n
  ]

  table-perm :
      (xs ys runs : List RunRow)
      → Perm xs ys
      → (claim_each now cutoff excluded error xs runs).1
        ≡ (claim_each now cutoff excluded error ys runs).1
  table-perm xs ys runs p =
      table_after xs runs
      ∙ update_where_cong (claimed_by xs) (claimed_by ys) (failed_row now error) runs (λ row.
        Perm.foldr-eq (hlevel) (λ read rest. wants row read || rest) (wants_comm row) p false)
      ∙ sym (table_after ys runs)

  -- A row that was read, is not skipped and can be claimed.
  abbrev pub claimable : List RunRow → RunRow → Bool
  claimable runs read = wanted read && ltb 0 (rowcount (unclaimed read) runs)

  count_kept :
      (read other : RunRow) (runs : List RunRow)
      → (other.run_id == read.run_id) ≡ false
      → rowcount (unclaimed other) (update_where (unclaimed read) (failed_row now error) runs)
        ≡ rowcount (unclaimed other) runs
  unfolding failed_row
  count_kept read other [] h = refl
  count_kept read other (row ∷ runs) h = ground (arith, count_kept read other runs h)

  kept_claimable :
      (read : RunRow) (reads runs : List RunRow)
      → contains (keyed run_key reads) read.run_id ≡ false
      → keep (claimable (update_where (unclaimed read) (failed_row now error) runs)) reads
        ≡ keep (claimable runs) reads
  kept_claimable read [] runs h = refl
  kept_claimable read (other ∷ reads) runs h =
      let c = count_kept read other runs (ground (arith, h)) in
      let r = kept_claimable read reads runs (ground (arith, h)) in rw (c, r)

  pub replies_after :
      (reads runs : List RunRow)
      → Unique (keyed run_key reads)
      → (claim_each now cutoff excluded error reads runs).0
        ≡ map (failed_row now error) (keep (claimable runs) reads)
  unfolding claim_each
  replies_after [] runs u = refl
  replies_after (read ∷ reads) runs u =
      let skip = elem read.run_id excluded || leb cutoff read.updated_at in
      let next = update_where (unclaimed read) (failed_row now error) runs in
      let rest =
        replies_after reads next u.1
        ∙ ap (map (failed_row now error)) (kept_claimable read reads runs u.0) in
      elim (Bool-cases skip) [
        | inl y ↦ rw y (replies_after reads runs u.1)
        | inr n ↦ elim (Bool-cases (ltb 0 (rowcount (unclaimed read) runs))) [
          | inl c ↦ rw (n, c) (ap (λ l. failed_row now error read ∷ l) rest)
          | inr c ↦ rw (n, c) rest
        ]
      ]

  -- Whatever the order of the scan, the claims come to what the loop of the in-memory store does.
  pub claim_each-fail_loop_scanned :
      (scan : List RunRow → List RunRow) (rows : List RunRow)
      → ((found : List RunRow) → Perm (scan found) found)
      → Unique (keyed run_key rows)
      → let found = keep (λ r. in_flight r.status) rows in
        let r = claim_each now cutoff excluded error (scan found) rows in
        let m = fail_loop now cutoff excluded error (keyed run_key rows) in
        Perm r.0 m.0 × (keyed run_key r.1 ≡ m.1)
  claim_each-fail_loop_scanned scan rows p u =
      let found = keep (λ r. in_flight r.status) rows in
      let h = claim_each-fail_loop now cutoff excluded error rows u in
      let w = keep-Unique run_key (λ r. in_flight r.status) rows u in
      let a = replies_after (scan found) rows (Unique-perm run_key (Perm.symm (p found)) w) in
      let b = replies_after found rows w in
      (
        subst (λ l. Perm (claim_each now cutoff excluded error (scan found) rows).0 l) (sym b ∙ h.0)
            (subst (λ l. Perm l (map (failed_row now error) (keep (claimable rows) found))) (sym a)
              (map-keep-perm (claimable rows) (failed_row now error) (p found))),
        ap (keyed run_key) (table-perm (scan found) found rows (p found)) ∙ h.1,
      )
