-- ===== src/Store/Final.antt =====
-- A terminal run status is final.
use skeino.Base.{
  ℕ, ◌-◌, ◌≡◌, ap, ◌∙◌, ◌⊎◌, inl, inr, Bool, false, Option, none, some, List, [], ◌∷◌, arith, ◌==◌,
  ==_iff, Bool-cases, get, Unique, get-put_ne, All,
}
use skeino.Schemas.{RunRow, in_flight}
use skeino.Store.{Store, create_run, delete_run, delete_thread, touch_runs, fail_stale_runs}
use skeino.Store.Rows.{
  get-runs_outside, get-touch_all, get-fail_loop, update-other, update-missing, update-terminal,
  get-delete_run, stale-terminal,
}
use skeino.Store.Table.{
  RunOp, creates, sets_status, deletes_run, deletes_thread, touches, fails_stale, run_step,
  IsRunTable, run_step-IsRunTable,
}

-- The operation inserts a row of id `r`. (The code draws a fresh UUID each time.)
abbrev pub Creates : RunOp → ℕ → Type 0
Creates (creates now run_id thread_id assistant_id metadata kwargs strategy) r = run_id ≡ r
Creates _ r = ⊥

-- The operation is a deletion that is aimed at `r`, or at its thread `t`.
abbrev pub Deletes : RunOp → ℕ → ℕ → Type 0
Deletes (deletes_run thread_id run_id) t r = (thread_id ≡ t) × (run_id ≡ r)
Deletes (deletes_thread thread_id) t r = thread_id ≡ t
Deletes _ t r = ⊥

-- The row of `r` is untouched, or the operation was a deletion aimed at it and it is gone.
abbrev pub KeptOrDeleted : RunOp → ℕ → RunRow → Option RunRow → Type 0
KeptOrDeleted op r row found = (found ≡ some row) ⊎ ((found ≡ none) × Deletes op row.thread_id r)

-- A terminal row is final: whatever operation follows, other than an insert under the same id,
-- the row stays exactly as it is, error and times included, unless a deletion of that run or of
-- its thread removes it.
pub run_step-final :
    (op : RunOp) (s : Store) (r : ℕ) (row : RunRow)
    → Unique s.runs
    → get s.runs r ≡ some row
    → in_flight row.status ≡ false
    → ¬ Creates op r
    → KeptOrDeleted op r row (get (run_step op s).runs r)
unfolding run_step create_run delete_run delete_thread touch_runs fail_stale_runs
run_step-final (creates now k t a m kw st) s r row u e h c = inl (get-put_ne s.runs k _ r c ∙ e)
run_step-final (sets_status now k status error) s r row u e h c = elim (Bool-cases (k == r)) [
  | inl hit ↦
      let e' : get s.runs k ≡ some row = rw ((==_iff k r).0 hit) e in
      inl (
        ap (λ (p : Bool × Store). get p.1.runs r) (update-terminal now s k status error row e' h)
        ∙ e)
  | inr miss ↦ inl (update-other now s k r status error (ground arith) ∙ e)
]
run_step-final (deletes_run t k) s r row u e h c = ground (arith, get-delete_run s t k r)
run_step-final (deletes_thread t) s r row u e h c = ground (arith, get-runs_outside t s.runs r u)
run_step-final (touches now run_ids) s r row u e h c =
    ground (arith, get-touch_all now s.runs run_ids r)
run_step-final (fails_stale now stale_after excluded error) s r row u e h c = ground (
  arith,
  get-fail_loop now (now - stale_after) excluded error s.runs r,
  stale-terminal (now - stale_after) excluded r row h,
)

-- The row of `r` is gone, or is `row` itself.
abbrev pub GoneOr : RunRow → Option RunRow → Type 0
GoneOr row found = (found ≡ none) ⊎ (found ≡ some row)

unfoldable pub run_steps : List RunOp → Store → Store
run_steps [] s = s
run_steps (op ∷ ops) s = run_steps ops (run_step op s)

missing_stays_missing :
    (op : RunOp) (s : Store) (r : ℕ)
    → Unique s.runs
    → get s.runs r ≡ none
    → ¬ Creates op r
    → get (run_step op s).runs r ≡ none
unfolding run_step create_run delete_thread touch_runs fail_stale_runs
missing_stays_missing (creates now k t a m kw st) s r u e c = get-put_ne s.runs k _ r c ∙ e
missing_stays_missing (sets_status now k status error) s r u e c = elim (Bool-cases (k == r)) [
  | inl hit ↦
      let e' : get s.runs k ≡ none = rw ((==_iff k r).0 hit) e in
      ap (λ (p : Bool × Store). get p.1.runs r) (update-missing now s k status error e') ∙ e
  | inr miss ↦ update-other now s k r status error (ground arith) ∙ e
]
missing_stays_missing (deletes_run t k) s r u e c = ground (arith, get-delete_run s t k r)
missing_stays_missing (deletes_thread t) s r u e c = ground (arith, get-runs_outside t s.runs r u)
missing_stays_missing (touches now run_ids) s r u e c =
    ground (arith, get-touch_all now s.runs run_ids r)
missing_stays_missing (fails_stale now stale_after excluded error) s r u e c =
    ground (arith, get-fail_loop now (now - stale_after) excluded error s.runs r)

missing_after :
    (ops : List RunOp) (s : Store) (r : ℕ)
    → IsRunTable s.runs
    → get s.runs r ≡ none
    → All (λ op. ¬ Creates op r) ops
    → get (run_steps ops s).runs r ≡ none
unfolding run_steps
missing_after [] s r v e c = e
missing_after (op ∷ ops) s r v e c =
    missing_after ops (run_step op s) r (run_step-IsRunTable op s v)
      (missing_stays_missing op s r v.unique e c.0) c.1

-- So after any sequence of operations that never inserts the id again, a run that was once
-- terminal is either gone for good or still has the very same row.
pub run_steps-final :
    (ops : List RunOp) (s : Store) (r : ℕ) (row : RunRow)
    → IsRunTable s.runs
    → get s.runs r ≡ some row
    → in_flight row.status ≡ false
    → All (λ op. ¬ Creates op r) ops
    → GoneOr row (get (run_steps ops s).runs r)
unfolding run_steps
run_steps-final [] s r row v e h c = inr e
run_steps-final (op ∷ ops) s r row v e h c = elim (run_step-final op s r row v.unique e h c.0) [
  | inl kept ↦ run_steps-final ops (run_step op s) r row (run_step-IsRunTable op s v) kept h c.1
  | inr gone ↦ inl (missing_after ops (run_step op s) r (run_step-IsRunTable op s v) gone.0 c.1)
]
