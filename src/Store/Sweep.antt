-- ===== src/Store/Sweep.antt =====
-- Heartbeats and the orphan sweep of the store: `touch_runs` and `fail_stale_runs`.
use skeino.Base.{
  ◌<◌, ◌⊎◌, sym, subst, ltb, ℕ, ◌+◌, ◌-◌, ◌≤◌, ◌≡◌, refl, inl, inr, String, true, false, Option,
  none, some, List, [], ◌∷◌, arith, if◌then◌else◌, elem, Bool-cases, Dict, get,
}
use skeino.Schemas.{RunStatus, RunRow, in_flight}
use skeino.Store.{Store, touch_all, touch_runs, is_stale, failed_row, fail_loop, fail_stale_runs}
use skeino.Store.Rows.{
  InFlight, in_flight-InFlight, done-InFlight, on_row, touched, get-touch_all, swept, get-fail_loop,
}

-- The row of a run after the sweep, by its row before it.
abbrev pub IsSwept : ℕ → ℕ → List ℕ → String → ℕ → Option RunRow → Option RunRow → Type 0
IsSwept now stale_after excluded error r none found = found ≡ none
IsSwept now stale_after excluded error r (some row) found =
    ((InFlight row.status × (row.updated_at + stale_after < now) × (elem r excluded ≡ false))
      × (found
          ≡ some (record row { status = RunStatus.error; error = some error; updated_at = now })))
    ⊎ (((¬ InFlight row.status) ⊎ ((now ≤ row.updated_at + stale_after) ⊎ (elem r excluded ≡ true)))
        × (found ≡ some row))

module _ (now stale_after : ℕ) (excluded : List ℕ) (error : String) (r : ℕ) where
  row-IsSwept :
      (row : RunRow)
      → IsSwept now stale_after excluded error r
          (some row)
          (some (swept now (now - stale_after) excluded error r row))
  unfolding is_stale failed_row
  row-IsSwept row = elim (Bool-cases (in_flight row.status)) [
    | inr f ↦ inr (inl (done-InFlight row.status f), ground arith)
    | inl t ↦ elim (Bool-cases (ltb row.updated_at (now - stale_after))) [
      | inr late ↦ inr (inr (inl (ground arith)), ground arith)
      | inl old ↦ elim (Bool-cases (elem r excluded)) [
        | inl own ↦ inr (inr (inr own), ground arith)
        | inr other ↦ inl ((in_flight-InFlight row.status t, ground arith, other), ground arith)
      ]
    ]
  ]

  option-IsSwept :
      (found : Option RunRow)
      → IsSwept now stale_after excluded error r found
          (on_row (swept now (now - stale_after) excluded error r) found)
  option-IsSwept none = refl
  option-IsSwept (some row) = row-IsSwept row

get-fail_stale_runs :
    (now stale_after : ℕ) (s : Store) (excluded : List ℕ) (error : String) (r : ℕ)
    → get (fail_stale_runs now s stale_after excluded error).1.runs r
      ≡ on_row (swept now (now - stale_after) excluded error r) (get s.runs r)
unfolding fail_stale_runs
get-fail_stale_runs now stale_after s excluded error r =
    get-fail_loop now (now - stale_after) excluded error s.runs r

-- The sweep changes exactly the stale rows. A run that is pending or running, was last updated more than
-- the window ago and is not excluded gets the status `error`, the message and the time, and nothing else
-- of its row changes; every other run keeps its row, and no row is added or removed.
pub fail_stale_runs-IsSwept :
    (now stale_after : ℕ) (s : Store) (excluded : List ℕ) (error : String) (r : ℕ)
    → IsSwept now stale_after excluded error r
        (get s.runs r)
        (get (fail_stale_runs now s stale_after excluded error).1.runs r)
fail_stale_runs-IsSwept now stale_after s excluded error r =
    subst (IsSwept now stale_after excluded error r (get s.runs r))
      (sym (get-fail_stale_runs now stale_after s excluded error r))
      (option-IsSwept now stale_after excluded error r (get s.runs r))

not-stale-swept :
    (now cutoff : ℕ) (excluded : List ℕ) (error : String) (r : ℕ) (row : RunRow)
    → is_stale cutoff excluded r (failed_row now error row) ≡ false
unfolding is_stale failed_row
not-stale-swept now cutoff excluded error r row = refl

second_pass :
    (now cutoff now' : ℕ) (excluded : List ℕ) (error error' : String) (d : Dict RunRow)
    → fail_loop now' cutoff excluded error' (fail_loop now cutoff excluded error d).1
      ≡ ([], (fail_loop now cutoff excluded error d).1)
unfolding fail_loop
second_pass now cutoff now' excluded error error' [] = refl
second_pass now cutoff now' excluded error error' ((k, row) ∷ d) =
    elim (Bool-cases (is_stale cutoff excluded k row)) [
      | inl e ↦ rw e (
          ground (
            arith,
            second_pass now cutoff now' excluded error error' d,
            not-stale-swept now cutoff excluded error k row,
          ))
      | inr e ↦ rw e (ground (arith, second_pass now cutoff now' excluded error error' d))
    ]

-- One sweep is enough: a second one against the same cutoff fails nothing and changes nothing,
-- whatever its clock and its message.
pub fail_stale_runs_idempotent :
    (now stale_after now' stale_after' : ℕ) (s : Store) (excluded : List ℕ) (error error' : String)
    → now' - stale_after' ≡ now - stale_after
    → let swept_store = (fail_stale_runs now s stale_after excluded error).1 in
      fail_stale_runs now' swept_store stale_after' excluded error' ≡ ([], swept_store)
unfolding fail_stale_runs
fail_stale_runs_idempotent now stale_after now' stale_after' s excluded error error' e =
    rw e (rw (second_pass now (now - stale_after) now' excluded error error' s.runs))

recent_not_stale :
    (t cutoff : ℕ) (excluded : List ℕ) (r : ℕ) (row : RunRow)
    → cutoff ≤ t
    → is_stale cutoff excluded r (touched t row) ≡ false
unfolding is_stale
recent_not_stale t cutoff excluded r row h = ground arith

-- A run that was heartbeated no longer ago than the window survives the sweep, whatever else the
-- sweep does: its row is exactly the heartbeated one.
pub fail_stale_runs-touch_runs :
    (t now stale_after : ℕ) (s : Store) (run_ids excluded : List ℕ) (error : String) (r : ℕ)
    → elem r run_ids ≡ true
    → now ≤ t + stale_after
    → get (fail_stale_runs now (touch_runs t s run_ids) stale_after excluded error).1.runs r
      ≡ get (touch_runs t s run_ids).runs r
unfolding fail_stale_runs touch_runs
fail_stale_runs-touch_runs t now stale_after s run_ids excluded error r listed recent =
    sweep_of_touched (get s.runs r) (get-touch_all t s.runs run_ids r)
  where
    sweep_of_touched :
        (found : Option RunRow)
        → get (touch_all t s.runs run_ids) r
          ≡ (if elem r run_ids then on_row (touched t) found else found)
        → get (fail_loop now (now - stale_after) excluded error (touch_all t s.runs run_ids)).1 r
          ≡ get (touch_all t s.runs run_ids) r
    sweep_of_touched none e =
        ground (
          arith,
          get-fail_loop now (now - stale_after) excluded error (touch_all t s.runs run_ids) r,
        )
    sweep_of_touched (some row) e = ground (
      arith,
      get-fail_loop now (now - stale_after) excluded error (touch_all t s.runs run_ids) r,
      recent_not_stale t (now - stale_after) excluded r row,
    )

-- A run that this process lists as its own is never failed by its sweep.
pub fail_stale_runs-excluded :
    (now stale_after : ℕ) (s : Store) (excluded : List ℕ) (error : String) (r : ℕ)
    → elem r excluded ≡ true
    → get (fail_stale_runs now s stale_after excluded error).1.runs r ≡ get s.runs r
unfolding is_stale
fail_stale_runs-excluded now stale_after s excluded error r listed =
    ground (arith, get-fail_stale_runs now stale_after s excluded error r)
