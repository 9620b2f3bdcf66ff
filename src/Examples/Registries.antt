-- ===== src/Examples/Registries.antt =====
-- The registries with the runs 7 and 8 of the thread 1.
use skeino.Base.{
  ℕ, ◌≡◌, ◌≤◌, ◌<◌, refl, true, false, not, ◌&&◌, ◌||◌, ◌==◌, Option, none, some, List, [], ◌∷◌,
  arith, elem, length, get, Dict,
}
use skeino.Stream.{RunEventStream, closed, new_stream}
use skeino.StreamRegistry.{RunStreamRegistry, sweep, get_stream}
use skeino.StreamRegistry
use skeino.StreamRegistry.Traffic.{Call, perform_all, perform_all_accounts, perform_all_bounded}
use skeino.Concurrency
use skeino.Concurrency.{
  Task, BackgroundRunRegistry, Step, steps, spawn, active_runs, active_set, finalizer_ends,
}
use skeino.Concurrency.Activity.{spawned_run_active, finalizer_ends_releases}

abbrev two_closed : List Call
two_closed =
    Call.opens 1 1 7 true ∷ Call.opens 2 1 8 true ∷ Call.closes 3 3 0 ∷ Call.closes 4 4 1 ∷ []

abbrev after_traffic : RunStreamRegistry
after_traffic = perform_all (StreamRegistry.new_registry 600 1 10 1000) two_closed

perform_all_accounts_example :
    (stream : RunEventStream) × (get after_traffic.heap 1 ≡ some stream)
    × (stream.run_id ≡ 8)
    × ((not (closed stream) || elem 1 after_traffic.expiry) ≡ true)
unfolding perform_all StreamRegistry.close_stream StreamRegistry.open_stream skeino.Base.put
    StreamRegistry.new_registry new_stream skeino.Stream.close skeino.Base.remove
perform_all_accounts_example = perform_all_accounts 600 1 10 1000 two_closed 8 1 refl

perform_all_bounded_example : length after_traffic.expiry ≤ 1
perform_all_bounded_example = perform_all_bounded 600 1 10 1000 two_closed

abbrev one_open : RunStreamRegistry
one_open = record (StreamRegistry.new_registry 600 1 10 1000) {
  streams = (7, 0) ∷ [];
  heap = (0, new_stream 1 7 true 10 1000) ∷ [];
  next_ref = 1;
}

-- A streaming run's slot is reserved, its admission task hands over to the producer and ends; the
-- producer is cancelled and ends, and its finalizer is still running.
abbrev admission : Task
admission = record { thread_id = 1; run_id = 7; finalize = false; done = false; cancelling = false }

abbrev reserved : BackgroundRunRegistry
reserved = record Concurrency.new_registry {
  tasks = (7, 0) ∷ [];
  active_by_thread = (1, 7 ∷ []) ∷ [];
  heap = (0, admission) ∷ [];
  next_ref = 1;
}

abbrev hand_off : List Step
hand_off =
    Step.ends 0
    ∷ Step.calls_back 0
    ∷ Step.reads_active 1
    ∷ Step.cancels 7
    ∷ Step.ends 1
    ∷ Step.calls_back 1
    ∷ []

spawned_run_active_example :
    elem 7 (active_runs (steps (spawn reserved 1 7 true).1 hand_off) 1).0 ≡ true
spawned_run_active_example =
    spawned_run_active reserved 1 7 hand_off only_admission (λ j m. absurd (cc))
      (refl, (refl, (refl, (refl, (refl, (refl, tt))))))
  where
    only_admission :
        (j : ℕ) (task : Task)
        → get reserved.heap j ≡ some task
        → (j < 1) × ((task.run_id == 7 && task.finalize) ≡ false)
    only_admission j task h = grind arith

abbrev producer : Task
producer = record admission { finalize = true; done = true }

abbrev finalizing : BackgroundRunRegistry
finalizing = record {
  tasks = (7, 0) ∷ [];
  completion = (7, 0) ∷ [];
  finalizer_tasks = 0 ∷ [];
  active_by_thread = (1, 7 ∷ []) ∷ [];
  heap = (0, producer) ∷ [];
  next_ref = 1;
}

finalizer_ends_releases_example :
    let r' = finalizer_ends finalizing 0 in
    (get r'.tasks 7 ≡ none) × (get r'.completion 7 ≡ none) × (elem 7 (active_set r' 1) ≡ false)
finalizer_ends_releases_example = finalizer_ends_releases finalizing 0 producer refl refl
