-- ===== src/Examples/Runs.antt =====
-- The pending run 9 of the thread 2, alone in its store.
use skeino.Base.{
  ◌+◌, put, get-put_ne, arith, List, ℕ, ◌==◌, if◌then◌else◌, ◌≡◌, ◌⊎◌, refl, true, false, none,
  some, [], ◌∷◌, elem, get,
}
use skeino.Json.{Fields}
use skeino.Schemas.{RunStatus, ThreadStatus, MultitaskStrategy, RunRow, ThreadRow}
use skeino.Errors.{HttpError}
use skeino.Text.{Text, codes}
use skeino.Stream.{StreamEvent, RunEventStream}
use skeino.Stream.History.{IsHistory}
use skeino.Concurrency.{new_registry}
use skeino.RunOps.Join.{join_plan, IsJoined, join_plan-IsJoined}
use skeino.RunOps.Sweeps.{release_orphaned_thread, fail_orphaned_runs}
use skeino.RunOps.Ownership.{fail_orphaned_runs_own}
use skeino.RunOps.Requests.{delete_finished_run}
use skeino.RunOps.Answers.{release_orphaned_thread_active, delete_finished_run_outcome}
use skeino.ThreadOps.{delete}
use skeino.ThreadOps.Deletion.{IsOrdered, alone, delete_checkpoints_first}
use skeino.Store.{Store}
use skeino.RunOps.{Exn, Done, Fate, World}
use skeino.RunOps.Writes.{settle_thread_after_success}
use skeino.RunOps.Execution.{run_to_completion}
use skeino.RunOps.Claim.{run_to_completion_releases, run_to_completion_unclaimed}
use skeino.RunOps.Settling.{is_busy, settle_thread_after_success_kept}
use skeino.RunOps.Outcomes.{calm_world, expected_run, expected_thread}
use skeino.RunOps.Quiet.{IsCalm}
use skeino.RunOps.CalmRuns.{Leaves}
use skeino.RunOps.Calm.{run_to_completion_outcome}

abbrev pub waiting : RunRow
waiting = record {
  run_id = 9;
  thread_id = 2;
  assistant_id = "agent";
  created_at = 30;
  updated_at = 30;
  status = RunStatus.pending;
  metadata = Fields.end;
  kwargs = Fields.end;
  multitask_strategy = MultitaskStrategy.enqueue;
  error = none;
}

abbrev pub home : ThreadRow
home = record {
  thread_id = 2;
  created_at = 1;
  updated_at = 1;
  state_updated_at = none;
  metadata = Fields.end;
  config = Fields.end;
  status = ThreadStatus.idle;
  ttl = none;
}

abbrev pub one_run : Store
one_run = record { threads = (2, home) ∷ []; runs = (9, waiting) ∷ [] }

-- The graph fails; the clock goes on, and another process writes the run 77 at every await.
abbrev busy_elsewhere : World
busy_elsewhere = record (calm_world one_run 50 (Done.raises (Exn.fault "boom")) false) {
  moments = λ k. record {
    now = 50 + k;
    meanwhile = λ s. record s { runs = put s.runs 77 waiting };
    fate = Fate.clear;
  };
}

busy_elsewhere-IsCalm : IsCalm 9 2 busy_elsewhere.moments
busy_elsewhere-IsCalm = record {
  clear = λ k. refl;
  runs = λ k s. get-put_ne s.runs 77 waiting 9 (λ e. ground arith);
  threads = λ k s. refl;
}

run_to_completion_outcome_example :
    Leaves 9 2
      (Done.returns 0)
      (expected_run (λ e. "") 54 (Done.raises (Exn.fault "boom")) waiting)
      (expected_thread 55 (Done.raises (Exn.fault "boom")) false home)
      (run_to_completion 9 2 busy_elsewhere)
run_to_completion_outcome_example =
    run_to_completion_outcome 9 2 busy_elsewhere waiting home busy_elsewhere-IsCalm refl refl refl

-- A store that loses the row during the wait for the lock.
abbrev deleting : World
deleting = record (calm_world one_run 50 (Done.returns 3) false) {
  moments = λ k. record { now = 50; meanwhile = λ s. record s { runs = [] }; fate = Fate.clear };
}

run_to_completion_unclaimed_example : (run_to_completion 9 2 deleting).1.invoked ≡ []
run_to_completion_unclaimed_example = run_to_completion_unclaimed 9 2 deleting refl

-- Every call is cancelled after its effect.
abbrev cancelling : World
cancelling = record (calm_world one_run 50 (Done.returns 3) true) {
  moments = λ k. record { now = 50; meanwhile = λ s. s; fate = Fate.struck Exn.cancelled };
}

run_to_completion_releases_example : (run_to_completion 9 2 cancelling).1.held ≡ false
run_to_completion_releases_example = run_to_completion_releases 9 2 cancelling refl

settle_thread_after_success_kept_example :
    let w' = (settle_thread_after_success 2 cancelling).1 in
    (elem 2 w'.unsettled_threads ≡ true) ⊎ (is_busy w'.store 2 ≡ false)
settle_thread_after_success_kept_example = settle_thread_after_success_kept 2 cancelling

-- A history of one event, of a stream that is closed.
abbrev told : StreamEvent
told = record { event_id = 1; event = codes "values"; frame = codes "x" }

abbrev closed_stream : RunEventStream
closed_stream = record {
  thread_id = 2;
  run_id = 9;
  resumable = true;
  closed_at = some 5;
  next_id = 2;
  history = told ∷ [];
  history_bytes = 1;
  evicted_through_id = 0;
  max_history_events = 10;
  max_history_bytes = 1000;
  subscribers = [];
  queues = [];
  next_queue = 0;
}

closed_stream-IsHistory : IsHistory (told ∷ []) closed_stream
unfolding skeino.Text.utf8_length
closed_stream-IsHistory = record {
  gone = [];
  split = refl;
  numbered = (refl, tt);
  next = refl;
  evicted = refl;
  bytes = refl;
  within = refl;
}

join_plan-IsJoined_example :
    IsJoined (told ∷ []) closed_stream 9 0 (join_plan (some closed_stream) true 9 (some 0) [])
join_plan-IsJoined_example =
    join_plan-IsJoined (told ∷ []) closed_stream true 9 0 [] closed_stream-IsHistory refl

-- The checkpoints go, and the deletion of the rows is lost.
abbrev halfway : ℕ → Fate
halfway k = if k == 2 then Fate.lost (Exn.fault "lost") else Fate.clear

abbrev interrupted_deletion : World
interrupted_deletion = record (calm_world one_run 50 (Done.returns 3) false) {
  moments = alone (λ k. 50) halfway;
}

delete_checkpoints_first_example :
    IsOrdered true one_run 2 [] (delete true 2 interrupted_deletion).1
delete_checkpoints_first_example =
    delete_checkpoints_first true 2 interrupted_deletion (λ k. 50) halfway refl

abbrev executing : World
executing = record (calm_world one_run 50 (Done.returns 3) false) {
  registry = record new_registry { active_by_thread = (2, 9 ∷ []) ∷ [] };
}

release_orphaned_thread_active_example : (release_orphaned_thread 2 executing).1.store ≡ one_run
unfolding skeino.Concurrency.active_runs
release_orphaned_thread_active_example = release_orphaned_thread_active 2 executing refl

delete_finished_run_outcome_example :
    let r = delete_finished_run 2 9 (calm_world one_run 50 (Done.returns 3) false) in
    (r.0 ≡ Done.raises (Exn.http (HttpError.cancel_before_delete 9 RunStatus.pending)))
    × (r.1.store ≡ one_run)
unfolding skeino.Store.fetch_thread_row skeino.Store.fetch_run_row
delete_finished_run_outcome_example =
    delete_finished_run_outcome one_run 50 (Done.returns 3) false 2 9

abbrev two_graphs : List (Text × ℕ)
two_graphs = (codes "agent", 0) ∷ (codes "other", 1) ∷ []

fail_orphaned_runs_own_example :
    get (fail_orphaned_runs 1 "orphaned" executing).1.store.runs 9 ≡ some waiting
unfolding skeino.Concurrency.all_active
fail_orphaned_runs_own_example = fail_orphaned_runs_own 1 "orphaned" 9 executing refl (λ k s. refl)
