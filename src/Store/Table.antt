-- ===== src/Store/Table.antt =====
-- The methods that write run rows as one step function, and the invariant of the run table.
use skeino.Base.{
  ℕ, ◌-◌, ◌≡◌, refl, inl, inr, String, Option, List, [], ◌∷◌, arith, Option-cases, Dict, get, put,
  remove, contains, Unique, Entries, put-Unique, remove-Unique, put-Entries, remove-Entries,
  get-Entries,
}
use skeino.Json.{Fields}
use skeino.Schemas.{RunStatus, MultitaskStrategy, RunRow}
use skeino.Store.{
  Store, create_run, update_run_status, delete_run, delete_thread, runs_outside, touch_run,
  touch_all, touch_runs, fail_loop, fail_stale_runs,
}
use skeino.Store.Rows.{contains-runs_outside}

-- The methods that write run rows.
pub data RunOp : Type 0 where
  creates : ℕ → ℕ → ℕ → String → Fields → Fields → MultitaskStrategy → RunOp
  sets_status : ℕ → ℕ → RunStatus → Option String → RunOp
  deletes_run : ℕ → ℕ → RunOp
  deletes_thread : ℕ → RunOp
  touches : ℕ → List ℕ → RunOp
  fails_stale : ℕ → ℕ → List ℕ → String → RunOp

unfoldable pub run_step : RunOp → Store → Store
run_step (creates now run_id thread_id assistant_id metadata kwargs strategy) s =
    (create_run now s run_id thread_id assistant_id metadata kwargs strategy).1
run_step (sets_status now run_id status error) s = (update_run_status now s run_id status error).1
run_step (deletes_run thread_id run_id) s = delete_run s thread_id run_id
run_step (deletes_thread thread_id) s = delete_thread s thread_id
run_step (touches now run_ids) s = touch_runs now s run_ids
run_step (fails_stale now stale_after excluded error) s =
    (fail_stale_runs now s stale_after excluded error).1

-- Every entry is filed under its own id, once.
pub record IsRunTable (d : Dict RunRow) : Type 0 where
  pub unique : Unique d
  pub filed : Entries (λ k row. row.run_id ≡ k) d

fail_loop-contains :
    (now cutoff : ℕ) (excluded : List ℕ) (error : String) (d : Dict RunRow) (k : ℕ)
    → contains (fail_loop now cutoff excluded error d).1 k ≡ contains d k
unfolding fail_loop
fail_loop-contains now cutoff excluded error [] k = refl
fail_loop-contains now cutoff excluded error ((j, row) ∷ d) k =
    ground (arith, fail_loop-contains now cutoff excluded error d k)

fail_loop-IsRunTable :
    (now cutoff : ℕ) (excluded : List ℕ) (error : String) (d : Dict RunRow)
    → IsRunTable d
    → IsRunTable (fail_loop now cutoff excluded error d).1
unfolding fail_loop
fail_loop-IsRunTable now cutoff excluded error [] v = v
fail_loop-IsRunTable now cutoff excluded error ((k, row) ∷ d) v =
    let ih : IsRunTable (fail_loop now cutoff excluded error d).1 =
      fail_loop-IsRunTable now cutoff excluded error d
        (record { unique = v.unique.1; filed = v.filed.1 }) in
    ground (arith, ih, fail_loop-contains now cutoff excluded error d k)

runs_outside-IsRunTable : (t : ℕ) (d : Dict RunRow) → IsRunTable d → IsRunTable (runs_outside t d)
unfolding runs_outside
runs_outside-IsRunTable t [] v = v
runs_outside-IsRunTable t ((k, row) ∷ d) v =
    let ih : IsRunTable (runs_outside t d) =
      runs_outside-IsRunTable t d (record { unique = v.unique.1; filed = v.filed.1 }) in
    ground (arith, ih, contains-runs_outside t d k)

put-IsRunTable :
    (d : Dict RunRow) (k : ℕ) (row : RunRow)
    → row.run_id ≡ k
    → IsRunTable d
    → IsRunTable (put d k row)
put-IsRunTable d k row e v = record {
  unique = put-Unique d k row v.unique;
  filed = put-Entries _ d k row v.filed e;
}

remove-IsRunTable : (d : Dict RunRow) (k : ℕ) → IsRunTable d → IsRunTable (remove d k)
remove-IsRunTable d k v = record {
  unique = remove-Unique d k v.unique;
  filed = remove-Entries _ d k v.filed;
}

touch_run-IsRunTable :
    (now : ℕ) (d : Dict RunRow) (k : ℕ) → IsRunTable d → IsRunTable (touch_run now d k)
unfolding touch_run
touch_run-IsRunTable now d k v = elim (Option-cases (get d k)) [
  | inl e ↦ rw (e, touch_run) v
  | inr (row, e) ↦
      rw (e, touch_run)
        (ground (
          arith,
          put-IsRunTable d k (record row { updated_at = now }) (get-Entries _ d k row v.filed e) v,
        ))
]

touch_all-IsRunTable :
    (now : ℕ) (d : Dict RunRow) (run_ids : List ℕ)
    → IsRunTable d
    → IsRunTable (touch_all now d run_ids)
unfolding touch_all
touch_all-IsRunTable now d [] v = v
touch_all-IsRunTable now d (k ∷ run_ids) v =
    touch_all-IsRunTable now (touch_run now d k) run_ids (touch_run-IsRunTable now d k v)

update-IsRunTable :
    (now : ℕ) (s : Store) (k : ℕ) (status : RunStatus) (error : Option String)
    → IsRunTable s.runs
    → IsRunTable (update_run_status now s k status error).1.runs
unfolding update_run_status
update-IsRunTable now s k status error v = elim (Option-cases (get s.runs k)) [
  | inl e ↦ rw (e, update_run_status) v
  | inr (row, e) ↦
      rw (e, update_run_status)
        (ground (
          arith,
          put-IsRunTable s.runs k (record row { status = status; updated_at = now; error = error })
              (get-Entries _ s.runs k row v.filed e) v,
        ))
]

delete_run-IsRunTable :
    (s : Store) (t k : ℕ) → IsRunTable s.runs → IsRunTable (delete_run s t k).runs
unfolding delete_run
delete_run-IsRunTable s t k v = elim (Option-cases (get s.runs k)) [
  | inl e ↦ rw (e, delete_run) v
  | inr (row, e) ↦ rw (e, delete_run) (ground (arith, remove-IsRunTable s.runs k v))
]

-- Every operation keeps each run filed once, under its own id.
pub run_step-IsRunTable :
    (op : RunOp) (s : Store) → IsRunTable s.runs → IsRunTable (run_step op s).runs
unfolding run_step create_run delete_thread touch_runs fail_stale_runs
run_step-IsRunTable (creates now k t a m kw st) s v = put-IsRunTable s.runs k _ refl v
run_step-IsRunTable (sets_status now k status error) s v = update-IsRunTable now s k status error v
run_step-IsRunTable (deletes_run t k) s v = delete_run-IsRunTable s t k v
run_step-IsRunTable (deletes_thread t) s v = runs_outside-IsRunTable t s.runs v
run_step-IsRunTable (touches now run_ids) s v = touch_all-IsRunTable now s.runs run_ids v
run_step-IsRunTable (fails_stale now stale_after excluded error) s v =
    fail_loop-IsRunTable now (now - stale_after) excluded error s.runs v
