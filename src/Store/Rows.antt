-- ===== src/Store/Rows.antt =====
-- The row of one run after each method of the store.
use skeino.Base.{
  ℕ, ◌≡◌, ◌≢◌, refl, inl, inr, String, true, false, Option, none, some, List, [], ◌∷◌, arith, ◌==◌,
  if◌then◌else◌, elem, Option-cases, Dict, get, contains, Unique, get-put_self, get-put_ne,
  get-remove_self, get-remove_ne, get-none-contains,
}
use skeino.Schemas.{RunStatus, RunRow, in_flight}
use skeino.Store.{
  Store, update_run_status, delete_run, runs_outside, touch_run, touch_all, is_stale, failed_row,
  fail_loop,
}

-- The statuses of a run that has not ended.
abbrev pub InFlight : RunStatus → Type 0
InFlight RunStatus.pending = Unit
InFlight RunStatus.running = Unit
InFlight status = ⊥

pub in_flight-InFlight : (status : RunStatus) → in_flight status ≡ true → InFlight status
in_flight-InFlight RunStatus.pending h = tt
in_flight-InFlight RunStatus.running h = tt
in_flight-InFlight RunStatus.error h = absurd (cc)
in_flight-InFlight RunStatus.success h = absurd (cc)
in_flight-InFlight RunStatus.timeout h = absurd (cc)
in_flight-InFlight RunStatus.interrupted h = absurd (cc)

pub done-InFlight : (status : RunStatus) → in_flight status ≡ false → ¬ InFlight status
done-InFlight RunStatus.pending h = absurd (cc)
done-InFlight RunStatus.running h = absurd (cc)
done-InFlight RunStatus.error h = λ p. p
done-InFlight RunStatus.success h = λ p. p
done-InFlight RunStatus.timeout h = λ p. p
done-InFlight RunStatus.interrupted h = λ p. p

abbrev pub outside : ℕ → Option RunRow → Option RunRow
outside t none = none
outside t (some row) = if row.thread_id == t then none else some row

pub contains-runs_outside :
    (t : ℕ) (d : Dict RunRow) (r : ℕ) → contains d r ≡ false → contains (runs_outside t d) r ≡ false
unfolding runs_outside
contains-runs_outside t [] r h = refl
contains-runs_outside t ((k, row) ∷ d) r h = ground (arith, contains-runs_outside t d r)

-- With unique keys, the comprehension keeps exactly the rows of the other threads.
pub get-runs_outside :
    (t : ℕ) (d : Dict RunRow) (r : ℕ) → Unique d → get (runs_outside t d) r ≡ outside t (get d r)
unfolding runs_outside
get-runs_outside t [] r u = refl
get-runs_outside t ((k, row) ∷ d) r u = ground (
  arith,
  get-runs_outside t d r u.1,
  get-none-contains d r,
  get-none-contains (runs_outside t d) r,
  contains-runs_outside t d r,
)

abbrev pub touched : ℕ → RunRow → RunRow
touched now row = if in_flight row.status then record row { updated_at = now } else row

abbrev pub on_row : (RunRow → RunRow) → Option RunRow → Option RunRow
on_row f none = none
on_row f (some row) = some (f row)

pub get-touch_run :
    (now : ℕ) (d : Dict RunRow) (k r : ℕ)
    → get (touch_run now d k) r ≡ (if k == r then on_row (touched now) (get d r) else get d r)
unfolding touch_run
get-touch_run now d k r = elim (Option-cases (get d k)) [
  | inl e ↦ rw (e, touch_run) (ground arith)
  | inr (row, e) ↦
      rw (e, touch_run)
        (ground (
          arith,
          get-put_self d k (record row { updated_at = now }),
          get-put_ne d k (record row { updated_at = now }) r,
        ))
]

-- Heartbeats reach exactly the listed rows that are in flight, and write their time only.
pub get-touch_all :
    (now : ℕ) (d : Dict RunRow) (run_ids : List ℕ) (r : ℕ)
    → get (touch_all now d run_ids) r
      ≡ (if elem r run_ids then on_row (touched now) (get d r) else get d r)
unfolding touch_all
get-touch_all now d [] r = refl
get-touch_all now d (k ∷ run_ids) r =
    ground (arith, get-touch_all now (touch_run now d k) run_ids r, get-touch_run now d k r)

abbrev pub swept : ℕ → ℕ → List ℕ → String → ℕ → RunRow → RunRow
swept now cutoff excluded error r row =
    if is_stale cutoff excluded r row then failed_row now error row else row

pub get-fail_loop :
    (now cutoff : ℕ) (excluded : List ℕ) (error : String) (d : Dict RunRow) (r : ℕ)
    → get (fail_loop now cutoff excluded error d).1 r
      ≡ on_row (swept now cutoff excluded error r) (get d r)
unfolding fail_loop
get-fail_loop now cutoff excluded error [] r = refl
get-fail_loop now cutoff excluded error ((k, row) ∷ d) r =
    ground (arith, get-fail_loop now cutoff excluded error d r)

pub update-other :
    (now : ℕ) (s : Store) (k r : ℕ) (status : RunStatus) (error : Option String)
    → k ≢ r
    → get (update_run_status now s k status error).1.runs r ≡ get s.runs r
unfolding update_run_status
update-other now s k r status error h = elim (Option-cases (get s.runs k)) [
  | inl e ↦ rw (e, update_run_status)
  | inr (row, e) ↦
      rw (e, update_run_status)
        (ground (
          arith,
          get-put_ne s.runs k (record row { status = status; updated_at = now; error = error }) r h,
        ))
]

pub update-missing :
    (now : ℕ) (s : Store) (r : ℕ) (status : RunStatus) (error : Option String)
    → get s.runs r ≡ none
    → update_run_status now s r status error ≡ (false, s)
unfolding update_run_status
update-missing now s r status error e = rw (e, update_run_status)

pub update-terminal :
    (now : ℕ) (s : Store) (r : ℕ) (status : RunStatus) (error : Option String) (row : RunRow)
    → get s.runs r ≡ some row
    → in_flight row.status ≡ false
    → update_run_status now s r status error ≡ (false, s)
unfolding update_run_status
update-terminal now s r status error row e h = rw (e, update_run_status, h)

pub get-delete_run :
    (s : Store) (t k r : ℕ)
    → get (delete_run s t k).runs r ≡ (if k == r then outside t (get s.runs r) else get s.runs r)
unfolding delete_run
get-delete_run s t k r = elim (Option-cases (get s.runs k)) [
  | inl e ↦ rw (e, delete_run) (ground arith)
  | inr (row, e) ↦
      rw (e, delete_run) (ground (arith, get-remove_self s.runs k, get-remove_ne s.runs k r))
]

pub stale-terminal :
    (cutoff : ℕ) (excluded : List ℕ) (r : ℕ) (row : RunRow)
    → in_flight row.status ≡ false
    → is_stale cutoff excluded r row ≡ false
unfolding is_stale
stale-terminal cutoff excluded r row h = rw h
