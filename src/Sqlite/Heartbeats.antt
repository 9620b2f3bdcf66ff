-- ===== src/Sqlite/Heartbeats.antt =====
-- persistence/sqlite_store.py: `fail_stale_runs` while another process writes to the file between its scan
-- and its claims.
use skeino.Base.{
  ℕ, ◌-◌, ◌≡◌, ◌≢◌, refl, sym, ap, subst, ◌∙◌, String, Bool, true, false, ◌&&◌, ◌||◌, Option, none,
  some, List, [], ◌∷◌, arith, ◌==◌, ==_iff, keep, get, contains, Unique, Bool-cases, inl, inr, map,
}
use mathlib.Core.Option.{some-injective}
use mathlib.Core.List.{Perm}
use mathlib.Core.List.Perm
use skeino.Schemas.{RunRow, in_flight}
use skeino.Store.{failed_row}
use skeino.Tables.{Database, update_where}
use skeino.Tables.Commands.{run_key, IsKeyed}
use skeino.Tables.Keyed.{keyed, counted, rowcount-update}
use skeino.Tables.Permuted.{Unique-perm, keep-Unique, absent-keep, map-keep-perm, contains_key-perm}
use skeino.Sqlite.{fail_stale_runs}
use skeino.Sqlite.Orders.{
  wanted, wants, claimed_by, claimable, wants_comm, table_after, replies_after,
}

module _ (test : RunRow → Bool) (set : RunRow → RunRow)
    (same : (row : RunRow) → run_key (set row) ≡ run_key row) where
  -- A row that an UPDATE does not select stays under its key.
  get-update_where :
      (rows : List RunRow) (k : ℕ) (row : RunRow)
      → get (keyed run_key rows) k ≡ some row
      → test row ≡ false
      → get (keyed run_key (update_where test set rows)) k ≡ some row
  get-update_where [] k row h n = cc
  get-update_where (r ∷ rows) k row h n =
      let s = same r in
      elim (Bool-cases (r.run_id == k)) [
        | inl y ↦
            let e : r ≡ row = some-injective r row (rw y at h) in
            let t : test r ≡ false = ap test e ∙ n in rw (t, y) (ap some e)
        | inr m ↦
            let ih = get-update_where rows k row (rw m at h) n in
            elim (Bool-cases (test r)) [ inl t ↦ rw (t, s, m) ih | inr t ↦ rw (t, m) ih ]
      ]

module _ (now cutoff : ℕ) (excluded : List ℕ) (error : String) where
  wants_other :
      (read new : RunRow) (k : ℕ)
      → new.run_id ≡ k
      → (read.run_id == k) ≡ false
      → wants now cutoff excluded error new read ≡ false
  wants_other read new k e n = ground (arith, e, n)

  wants_moved :
      (read new : RunRow)
      → new.updated_at ≢ read.updated_at
      → wants now cutoff excluded error new read ≡ false
  wants_moved read new d = ground (arith, d)

  abbrev found : List RunRow → List RunRow
  found = keep (λ r. in_flight r.status)

  unclaimed_absent :
      (rows : List RunRow) (k : ℕ) (new : RunRow)
      → contains (keyed run_key rows) k ≡ false
      → new.run_id ≡ k
      → claimed_by now cutoff excluded error (found rows) new ≡ false
  unclaimed_absent [] k new h e = refl
  unclaimed_absent (read ∷ rows) k new h e =
      let o = wants_other read new k e (ground (arith, h)) in
      let ih = unclaimed_absent rows k new (ground (arith, h)) e in
      elim (Bool-cases (in_flight read.status)) [ inl y ↦ rw (y, o) ih | inr n ↦ rw n ih ]

  -- The row that was read under the key does not claim the row that is there now.
  unclaimed_now :
      (rows : List RunRow) (k : ℕ) (old new : RunRow)
      → Unique (keyed run_key rows)
      → get (keyed run_key rows) k ≡ some old
      → new.run_id ≡ k
      → new.updated_at ≢ old.updated_at
      → claimed_by now cutoff excluded error (found rows) new ≡ false
  unclaimed_now [] k old new u h e d = refl
  unclaimed_now (read ∷ rows) k old new u h e d = elim (Bool-cases (read.run_id == k)) [
    | inl y ↦
        let same : read ≡ old = some-injective read old (rw y at h) in
        let m = wants_moved read new (λ p. d (p ∙ ap (λ (r : RunRow). r.updated_at) same)) in
        let id : read.run_id ≡ k = (==_iff read.run_id k).0 y in
        let rest =
          unclaimed_absent rows k new (subst (λ x. contains (keyed run_key rows) x ≡ false) id u.0)
            e in
        elim (Bool-cases (in_flight read.status)) [ inl i ↦ rw (i, m) rest | inr i ↦ rw i rest ]
    | inr n ↦
        let o = wants_other read new k e n in
        let ih = unclaimed_now rows k old new u.1 (rw n at h) e d in
        elim (Bool-cases (in_flight read.status)) [ inl i ↦ rw (i, o) ih | inr i ↦ rw i ih ]
  ]

  keyed-failed :
      (rows : List RunRow) (k : ℕ)
      → contains (keyed run_key (map (failed_row now error) rows)) k
        ≡ contains (keyed run_key rows) k
  unfolding failed_row
  keyed-failed [] k = refl
  keyed-failed (row ∷ rows) k = ground (arith, keyed-failed rows k)

  module _ (runs : List RunRow) (k : ℕ) (new : RunRow) (u' : Unique (keyed run_key runs))
      (h' : get (keyed run_key runs) k ≡ some new) where
    unclaimable :
        (read : RunRow)
        → read.run_id ≡ k
        → new.updated_at ≢ read.updated_at
        → claimable now cutoff excluded error runs read ≡ false
    unclaimable read e d =
        let test : RunRow → Bool =
          λ row. row.updated_at == read.updated_at && in_flight row.status in
        let c = rowcount-update run_key test (λ row. row) runs read.run_id u' in
        let g : get (keyed run_key runs) read.run_id ≡ some new =
          ap (get (keyed run_key runs)) e ∙ h' in
        let n : (new.updated_at == read.updated_at && in_flight new.status) ≡ false =
          ground (arith, d) in
        let z = c ∙ ap (counted run_key test (λ row. row)) g ∙ n in
        ap (λ b. wanted now cutoff excluded error read && b) z ∙ ground arith

    unreported :
        (rows : List RunRow) (old : RunRow)
        → Unique (keyed run_key rows)
        → get (keyed run_key rows) k ≡ some old
        → new.updated_at ≢ old.updated_at
        → contains (keyed run_key (keep (claimable now cutoff excluded error runs) (found rows))) k
          ≡ false
    unreported [] old u h d = refl
    unreported (read ∷ rows) old u h d = elim (Bool-cases (read.run_id == k)) [
      | inl y ↦
          let same : read ≡ old = some-injective read old (rw y at h) in
          let id : read.run_id ≡ k = (==_iff read.run_id k).0 y in
          let c = unclaimable read id (λ p. d (p ∙ ap (λ (r : RunRow). r.updated_at) same)) in
          let a = subst (λ x. contains (keyed run_key rows) x ≡ false) id u.0 in
          let rest =
            absent-keep run_key (claimable now cutoff excluded error runs) (found rows) k
              (absent-keep run_key (λ r. in_flight r.status) rows k a) in
          elim (Bool-cases (in_flight read.status)) [ inl i ↦ rw (i, c) rest | inr i ↦ rw i rest ]
      | inr n ↦
          let ih = unreported rows old u.1 (rw n at h) d in
          elim (Bool-cases (in_flight read.status)) [
            | inl i ↦ elim (Bool-cases (claimable now cutoff excluded error runs read)) [
              | inl c ↦ rw (i, c, n) ih
              | inr c ↦ rw (i, c) ih
            ]
            | inr i ↦ rw i ih
          ]
    ]

key_of_get :
    (rows : List RunRow) (k : ℕ) (row : RunRow)
    → get (keyed run_key rows) k ≡ some row
    → row.run_id ≡ k
key_of_get [] k row h = cc
key_of_get (r ∷ rows) k row h = elim (Bool-cases (r.run_id == k)) [
  | inl y ↦
      ap (λ (x : RunRow). x.run_id) (sym (some-injective r row (rw y at h)))
      ∙ (==_iff r.run_id k).0 y
  | inr n ↦ key_of_get rows k row (rw n at h)
]

same_key :
    (now : ℕ) (error : String) (row : RunRow) → run_key (failed_row now error row) ≡ run_key row
unfolding failed_row
same_key now error row = refl

-- Whether a sweep that answers, or raises, reports the run.
abbrev pub reports : ℕ → Option (List RunRow) → Bool
reports k none = false
reports k (some failed) = contains (keyed run_key failed) k

-- A heartbeat wins: if a run's `updated_at` has changed between the scan and the claims, by whatever another
-- process does to the file meanwhile, the sweep leaves the run's row as it finds it then, and does not
-- report the run; whether or not a statement fails, in whatever order the scan finds the rows.
pub heartbeat_wins :
    (scan : List RunRow → List RunRow) (now : ℕ) (meanwhile : Database → Database) (fails : Bool)
    (db : Database) (stale_after : ℕ) (excluded : List ℕ) (error : String) (k : ℕ)
    (old new : RunRow)
    → ((found : List RunRow) → Perm (scan found) found)
    → IsKeyed db
    → IsKeyed (meanwhile db)
    → get (keyed run_key db.app_runs) k ≡ some old
    → get (keyed run_key (meanwhile db).app_runs) k ≡ some new
    → new.updated_at ≢ old.updated_at
    → let (reply, db') = fail_stale_runs scan now meanwhile fails db stale_after excluded error in
      (get (keyed run_key db'.app_runs) k ≡ some new) × (reports k reply ≡ false)
unfolding fail_stale_runs
heartbeat_wins scan now meanwhile true db stale_after excluded error k old new p v v' h h' d =
    (h', refl)
heartbeat_wins scan now meanwhile false db stale_after excluded error k old new p v v' h h' d =
    let cutoff = now - stale_after in
    let runs = (meanwhile db).app_runs in
    let base : List RunRow = keep (λ r. in_flight r.status) db.app_runs in
    let e = key_of_get runs k new h' in
    let c =
      Perm.foldr-eq (hlevel) (λ read rest. wants now cutoff excluded error new read || rest)
        (wants_comm now cutoff excluded error new) (p base) false
      ∙ unclaimed_now now cutoff excluded error db.app_runs k old new v.runs h e d in
    let w = Unique-perm run_key (Perm.symm (p base)) (keep-Unique run_key _ db.app_runs v.runs) in
    let r = replies_after now cutoff excluded error (scan base) runs w in
    let q =
      map-keep-perm (claimable now cutoff excluded error runs) (failed_row now error) (p base) in
    (
      subst (λ rows. get (keyed run_key rows) k ≡ some new)
          (sym (table_after now cutoff excluded error (scan base) runs))
          (get-update_where (claimed_by now cutoff excluded error (scan base))
            (failed_row now error) (same_key now error) runs k new h' c),
      ap (λ rows. contains (keyed run_key rows) k) r
          ∙ contains_key-perm run_key q k
          ∙ keyed-failed now cutoff excluded error _ k
          ∙ unreported now cutoff excluded error runs k new v'.runs h' db.app_runs old v.runs h d,
    )
