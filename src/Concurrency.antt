-- ===== src/Concurrency.antt =====
-- concurrency.py: BackgroundRunRegistry. A task stands on a heap under a reference, which the code's
-- `is` compares, with what the event loop has done to it; a completion future is named by the task
-- it belongs to. Sets are lists without a repeated member. What the event loop does between two
-- calls (a task ends, its done callback runs, its finalizer ends) is a step of its own, so that
-- every order of them is a list of steps.
pub mod Holding
pub mod Lifetime
pub mod Activity
use skeino.Base.{
  ℕ, suc, String, Bool, true, false, not, ◌&&◌, ◌||◌, Option, none, some, List, [], ◌∷◌, ◌++◌, map,
  ◌==◌, if◌then◌else◌, elem, keep, Dict, get, contains, put, remove,
}

-- asyncio.Task, with the closure of its done callback: the ids, and whether `spawn` got a finalizer.
pub record Task : Type 0 where
  pub thread_id : ℕ
  pub run_id : ℕ
  pub finalize : Bool
  pub done : Bool
  pub cancelling : Bool

pub record BackgroundRunRegistry : Type 0 where
  pub tasks : Dict ℕ
  pub completion : Dict ℕ
  pub finalizer_tasks : List ℕ
  pub active_by_thread : Dict (List ℕ)
  pub heap : Dict Task
  pub next_ref : ℕ

abbrev pub new_registry : BackgroundRunRegistry
new_registry = record {
  tasks = [];
  completion = [];
  finalizer_tasks = [];
  active_by_thread = [];
  heap = [];
  next_ref = 0;
}

-- set.add
unfoldable pub add : ℕ → List ℕ → List ℕ
add k xs = if elem k xs then xs else xs ++ k ∷ []

-- set.discard
unfoldable pub discard : ℕ → List ℕ → List ℕ
discard k xs = keep (λ x. not (x == k)) xs

-- _active_by_thread.get(thread_id), as a set
abbrev pub active_set : BackgroundRunRegistry → ℕ → List ℕ
active_set r thread_id = elim (get r.active_by_thread thread_id) [ none ↦ [] | some ids ↦ ids ]

-- `setdefault(thread_id, set()).add(run_id)`
unfoldable pub register_external : BackgroundRunRegistry → ℕ → ℕ → BackgroundRunRegistry
unfolding add
register_external r thread_id run_id = record r {
  active_by_thread = put r.active_by_thread thread_id (add run_id (active_set r thread_id));
}

abbrev pub store_active : Dict (List ℕ) → ℕ → List ℕ → Dict (List ℕ)
store_active d thread_id [] = remove d thread_id
store_active d thread_id (run_id ∷ ids) = put d thread_id (run_id ∷ ids)

unfoldable pub forget : BackgroundRunRegistry → ℕ → ℕ → BackgroundRunRegistry
unfolding discard
forget r thread_id run_id = record r {
  tasks = remove r.tasks run_id;
  active_by_thread = elim (get r.active_by_thread thread_id) [
    | none ↦ r.active_by_thread
    | some active ↦ store_active r.active_by_thread thread_id (discard run_id active)
  ];
}

-- task.done()
abbrev pub ref_done : BackgroundRunRegistry → ℕ → Bool
ref_done r ref = elim (get r.heap ref) [ none ↦ false | some task ↦ task.done ]

-- `task is not None and task.done()`, of the task that is tracked for a run
abbrev pub task_done : BackgroundRunRegistry → ℕ → Bool
task_done r run_id = elim (get r.tasks run_id) [ none ↦ false | some ref ↦ ref_done r ref ]

-- The test of `active_runs` for a run that is finished and has no finalizer pending.
unfoldable pub finished : BackgroundRunRegistry → ℕ → Bool
finished r run_id = task_done r run_id && not (contains r.completion run_id)

-- The loop of `active_runs`.
unfoldable pub active_loop : ℕ → BackgroundRunRegistry → List ℕ → List ℕ × BackgroundRunRegistry
unfolding finished forget
active_loop thread_id r [] = ([], r)
active_loop thread_id r (run_id ∷ ids) =
    let pruned = active_loop thread_id (forget r thread_id run_id) ids in
    let rest = active_loop thread_id r ids in
    if finished r run_id then pruned else (run_id ∷ rest.0, rest.1)

unfoldable pub active_runs : BackgroundRunRegistry → ℕ → List ℕ × BackgroundRunRegistry
unfolding active_loop
active_runs r thread_id = active_loop thread_id r (active_set r thread_id)

unfoldable pub pairs : Dict (List ℕ) → List (ℕ × ℕ)
pairs [] = []
pairs ((thread_id, ids) ∷ d) = map (λ run_id. (thread_id, run_id)) ids ++ pairs d

unfoldable pub all_active : BackgroundRunRegistry → List (ℕ × ℕ)
unfolding pairs
all_active r = pairs r.active_by_thread

-- The task's reference, and the registry. The task itself has not run yet.
unfoldable pub spawn : BackgroundRunRegistry → ℕ → ℕ → Bool → ℕ × BackgroundRunRegistry
unfolding register_external
spawn r thread_id run_id finalize =
    let ref = r.next_ref in
    let task : Task = record {
      thread_id = thread_id;
      run_id = run_id;
      finalize = finalize;
      done = false;
      cancelling = false;
    } in
    let r' =
      register_external
        (record r {
          tasks = put r.tasks run_id ref;
          heap = put r.heap ref task;
          next_ref = suc ref;
        })
        thread_id run_id in
    (ref, if finalize then record r' { completion = put r'.completion run_id ref } else r')

-- `if not task.cancelling(): task.cancel()`, which does nothing on a task that is done
unfoldable pub request_cancel : BackgroundRunRegistry → ℕ → BackgroundRunRegistry
request_cancel r ref = elim (get r.heap ref) [
  | none ↦ r
  | some task ↦
      if task.cancelling || task.done
      then r
      else record r { heap = put r.heap ref (record task { cancelling = true }) }
]

-- What `cancel` does before it waits: whether a task exists, and the registry.
unfoldable pub cancel : BackgroundRunRegistry → ℕ → Bool × BackgroundRunRegistry
unfolding request_cancel
cancel r run_id = elim (get r.tasks run_id) [
  | none ↦ (false, r)
  | some ref ↦ (true, request_cancel r ref)
]

unfoldable pub cancel_all : BackgroundRunRegistry → Dict ℕ → BackgroundRunRegistry
unfolding request_cancel
cancel_all r [] = r
cancel_all r ((run_id, ref) ∷ tasks) = cancel_all (request_cancel r ref) tasks

-- What `shutdown` does before it waits.
unfoldable pub shutdown : BackgroundRunRegistry → BackgroundRunRegistry
unfolding cancel_all
shutdown r = cancel_all r r.tasks

-- The event loop: a task ends (by returning, raising or being cancelled).
unfoldable pub task_ends : BackgroundRunRegistry → ℕ → BackgroundRunRegistry
task_ends r ref = elim (get r.heap ref) [
  | none ↦ r
  | some task ↦ record r { heap = put r.heap ref (record task { done = true }) }
]

-- The done callback of `spawn`: forget the run if the task is still the one tracked for it, or start
-- the finalizer.
unfoldable pub done_callback : BackgroundRunRegistry → ℕ → BackgroundRunRegistry
unfolding forget add
done_callback r ref = elim (get r.heap ref) [
  | none ↦ r
  | some task ↦
      if not task.done
      then r
      else if task.finalize
      then record r { finalizer_tasks = add ref r.finalizer_tasks }
      else elim (get r.tasks task.run_id) [
        | none ↦ r
        | some current ↦ if current == ref then forget r task.thread_id task.run_id else r
      ]
]

-- The `finally` of `finish`, and the discard of the finalizer's task.
unfoldable pub finalizer_ends : BackgroundRunRegistry → ℕ → BackgroundRunRegistry
unfolding forget discard
finalizer_ends r ref = elim (get r.heap ref) [
  | none ↦ r
  | some task ↦
      if elem ref r.finalizer_tasks
      then (let r' =
            forget (record r { completion = remove r.completion task.run_id }) task.thread_id
              task.run_id in
          record r' { finalizer_tasks = discard ref r'.finalizer_tasks })
      else r
]

pub data Step : Type 0 where
  reserves : ℕ → ℕ → Step
  spawns : ℕ → ℕ → Bool → Step
  reads_active : ℕ → Step
  cancels : ℕ → Step
  shuts_down : Step
  ends : ℕ → Step
  calls_back : ℕ → Step
  finalizes : ℕ → Step

unfoldable pub step : BackgroundRunRegistry → Step → BackgroundRunRegistry
unfolding register_external spawn active_runs cancel shutdown task_ends done_callback finalizer_ends
step r (Step.reserves thread_id run_id) = register_external r thread_id run_id
step r (Step.spawns thread_id run_id finalize) = (spawn r thread_id run_id finalize).1
step r (Step.reads_active thread_id) = (active_runs r thread_id).1
step r (Step.cancels run_id) = (cancel r run_id).1
step r Step.shuts_down = shutdown r
step r (Step.ends ref) = task_ends r ref
step r (Step.calls_back ref) = done_callback r ref
step r (Step.finalizes ref) = finalizer_ends r ref

unfoldable pub steps : BackgroundRunRegistry → List Step → BackgroundRunRegistry
unfolding step
steps r [] = r
steps r (s ∷ ss) = steps (step r s) ss
