-- ===== src/Examples/Stores.antt =====
-- A store with the threads 1 and 2, a finished run 7 and a running run 8 on the thread 1, and a pending
-- run 9 on the thread 2.
use mathlib.Core.List.{Perm}
use skeino.Base.{
  ◌++◌, take, drop, values, ℕ, ◌≡◌, refl, true, none, some, List, [], ◌∷◌, arith, All, get,
}
use skeino.Json.{Fields}
use skeino.Schemas.{
  RunStatus, ThreadStatus, MultitaskStrategy, RunRow, ThreadRow, SortField, ThreadSearchRequest,
}
use skeino.Store.{Store, update_run_status, search_thread_rows, touch_runs, fail_stale_runs}
use skeino.Store.Table.{RunOp, run_step, IsRunTable, run_step-IsRunTable}
use skeino.Store.Final.{GoneOr, run_steps, run_steps-final}
use skeino.Store.Sweep.{
  IsSwept, fail_stale_runs-IsSwept, fail_stale_runs_idempotent, fail_stale_runs-touch_runs,
}
use skeino.Store.Listing.{search_thread_rows_page}
use skeino.Store.Search.{InOrder, Wanted}
use skeino.Store.Threads.{IsStatusWrite, update_run_status_outcome}

abbrev run_of : ℕ → ℕ → ℕ → RunStatus → RunRow
run_of run_id thread_id at status = record {
  run_id = run_id;
  thread_id = thread_id;
  assistant_id = "agent";
  created_at = at;
  updated_at = at;
  status = status;
  metadata = Fields.end;
  kwargs = Fields.end;
  multitask_strategy = MultitaskStrategy.enqueue;
  error = none;
}

abbrev thread_of : ℕ → ThreadStatus → ThreadRow
thread_of thread_id status = record {
  thread_id = thread_id;
  created_at = 1;
  updated_at = 1;
  state_updated_at = none;
  metadata = Fields.end;
  config = Fields.end;
  status = status;
  ttl = none;
}

abbrev finished_run : RunRow
finished_run = run_of 7 1 10 RunStatus.success

abbrev two_threads : Store
two_threads = record {
  threads = (1, thread_of 1 ThreadStatus.busy) ∷ (2, thread_of 2 ThreadStatus.idle) ∷ [];
  runs =
      (7, finished_run)
      ∷ (8, run_of 8 1 20 RunStatus.running)
      ∷ (9, run_of 9 2 30 RunStatus.pending)
      ∷ [];
}

two_threads-IsRunTable : IsRunTable two_threads.runs
two_threads-IsRunTable = record {
  unique = (refl, (refl, (refl, tt)));
  filed = (refl, (refl, (refl, tt)));
}

abbrev later_ops : List RunOp
later_ops =
    RunOp.sets_status 40 7 RunStatus.error (some "late")
    ∷ RunOp.touches 50 (7 ∷ 8 ∷ [])
    ∷ RunOp.fails_stale 90 10 [] "orphaned"
    ∷ []

run_steps-final_example : GoneOr finished_run (get (run_steps later_ops two_threads).runs 7)
run_steps-final_example =
    run_steps-final later_ops two_threads 7 finished_run two_threads-IsRunTable refl refl
      (λ x. x, (λ x. x, (λ x. x, tt)))

run_step-IsRunTable_example : IsRunTable (run_step (RunOp.deletes_thread 1) two_threads).runs
run_step-IsRunTable_example =
    run_step-IsRunTable (RunOp.deletes_thread 1) two_threads two_threads-IsRunTable

fail_stale_runs-IsSwept_example :
    IsSwept 100 75
      (9 ∷ [])
      "orphaned"
      8
      (some (run_of 8 1 20 RunStatus.running))
      (get (fail_stale_runs 100 two_threads 75 (9 ∷ []) "orphaned").1.runs 8)
fail_stale_runs-IsSwept_example = fail_stale_runs-IsSwept 100 75 two_threads (9 ∷ []) "orphaned" 8

fail_stale_runs_idempotent_example :
    let swept_store = (fail_stale_runs 100 two_threads 75 [] "orphaned").1 in
    fail_stale_runs 110 swept_store 85 [] "again" ≡ ([], swept_store)
fail_stale_runs_idempotent_example =
    fail_stale_runs_idempotent 100 75 110 85 two_threads [] "orphaned" "again" refl

fail_stale_runs-touch_runs_example :
    get (fail_stale_runs 100 (touch_runs 60 two_threads (8 ∷ [])) 50 [] "orphaned").1.runs 8
    ≡ get (touch_runs 60 two_threads (8 ∷ [])).runs 8
fail_stale_runs-touch_runs_example =
    fail_stale_runs-touch_runs 60 100 50 two_threads (8 ∷ []) [] "orphaned" 8 refl (omega arith)

abbrev busy_first : ThreadSearchRequest
busy_first = record {
  ids = none;
  metadata = none;
  values = none;
  status = some ThreadStatus.busy;
  limit = 5;
  offset = 0;
  sort_by = some SortField.updated_at;
  ascending = true;
}

search_thread_rows_page_example :
    (listed others : List ThreadRow) × (search_thread_rows two_threads busy_first
      ≡ take 5 (drop 0 listed))
    × InOrder busy_first listed
    × Perm (listed ++ others) (values two_threads.threads)
    × All (Wanted busy_first) listed
    × All (λ row. ¬ Wanted busy_first row) others
search_thread_rows_page_example = search_thread_rows_page two_threads busy_first

update_run_status_outcome_example :
    IsStatusWrite 60 two_threads 8 8 RunStatus.error
      (some "late")
      (some (run_of 8 1 20 RunStatus.running))
      (update_run_status 60 two_threads 8 RunStatus.error (some "late"))
update_run_status_outcome_example =
    update_run_status_outcome 60 two_threads 8 8 RunStatus.error (some "late")
