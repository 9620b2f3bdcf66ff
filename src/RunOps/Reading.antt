-- ===== src/RunOps/Reading.antt =====
-- ops/runs.py: what the reader of a finished run's output gets, in every world.
use skeino.Base.{
  ℕ, ◌≡◌, refl, ap, ◌⊎◌, inl, inr, Bool, true, not, Option, none, some, String, Bool-cases,
}
use skeino.Json.{Json}
use skeino.Errors.{HttpError}
use skeino.Schemas.{RunStatus, RunRow, run_status_eq, in_flight}
use skeino.Outputs.{Snapshot, output_with_interrupts}
use skeino.RunOps.{Exn, Done, World, return_op, ◌>>=◌}
use skeino.RunOps.Writes.{read_run_row}
use skeino.RunOps.Requests.{get_run, refuse_unless}
use skeino.RunOps.Admission.{RunRequest, wait_for_task, admit_and_spawn}
use skeino.RunOps.Waiting.{wait_run, await_admission, join_task, look_up_task, join_run}
use skeino.RunOps.Yields.{Yields, bind-Yields, try-Yields, ask-Yields, any-Yields}
use skeino.RunOps.Finals.{
  Graph, tolerate, output_of, read_history, latest, or_latest, final_state_values, tokens_of_task,
  filtered_output, unreadable, collect_from, collect_terminal_output,
}

module _ (graph : Graph) (thread_id run_id : ℕ) where
  -- The graph's newest snapshot of the run; and that the graph keeps no snapshots by run, or had none of
  -- the run at some time.
  abbrev pub IsScoped : Snapshot → Type 0
  IsScoped snapshot =
      (get_history : ℕ → ℕ → ℕ → Done (Option Snapshot)) × (now : ℕ) × (graph.history
        ≡ some get_history)
      × (get_history now thread_id run_id ≡ Done.returns (some snapshot))

  abbrev pub IsUnscoped : Type 0
  IsUnscoped =
      (graph.history ≡ none)
      ⊎ ((get_history : ℕ → ℕ → ℕ → Done (Option Snapshot)) × (now : ℕ) × (graph.history
            ≡ some get_history)
          × (get_history now thread_id run_id ≡ Done.returns none))

  -- The snapshot that is the run's: its own, or the thread's latest where the run has none.
  abbrev pub IsOwn : Snapshot → Type 0
  IsOwn snapshot =
      IsScoped snapshot
      ⊎ (IsUnscoped × ((now : ℕ) × (graph.state now thread_id ≡ Done.returns snapshot)))

  abbrev OwnOutput : Json → Type 0
  OwnOutput output =
      (snapshot : Snapshot) × IsOwn snapshot × (output ≡ output_with_interrupts snapshot)

  abbrev FoundOutput : Option Json → Type 0
  FoundOutput none = IsUnscoped
  FoundOutput (some output) =
      (snapshot : Snapshot) × IsScoped snapshot × (output ≡ output_with_interrupts snapshot)

  scoped_found :
      (get_history : ℕ → ℕ → ℕ → Done (Option Snapshot)) (now : ℕ) (found : Option Snapshot)
      → graph.history ≡ some get_history
      → get_history now thread_id run_id ≡ Done.returns found
      → FoundOutput (output_of found)
  scoped_found get_history now none e h = inr (get_history, now, e, h)
  scoped_found get_history now (some snapshot) e h = (snapshot, (get_history, now, e, h), refl)

  read_history-Yields :
      (history : Option (ℕ → ℕ → ℕ → Done (Option Snapshot)))
      → graph.history ≡ history
      → (w : World) → Yields FoundOutput (read_history history thread_id run_id true w)
  unfolding read_history tolerate
  read_history-Yields none e w = inl e
  read_history-Yields (some get_history) e w =
      try-Yields FoundOutput _ _
        (bind-Yields (λ found. FoundOutput (output_of found)) FoundOutput _ _
          (ask-Yields (λ found. FoundOutput (output_of found)) _ w
            (λ now found h. scoped_found get_history now found e h))
          (λ found u y. y))
        (λ x u. tt)

  latest-Yields : IsUnscoped → (w : World) → Yields OwnOutput (latest graph thread_id true w)
  unfolding latest tolerate
  latest-Yields n w =
      try-Yields OwnOutput _ _
        (bind-Yields IsOwn OwnOutput _ _
          (ask-Yields IsOwn _ w (λ now snapshot h. inr (n, (now, h))))
          (λ snapshot u y. (snapshot, y, refl)))
        (λ x u. tt)

  or_latest-Yields :
      (found : Option Json) (w : World)
      → FoundOutput found
      → Yields OwnOutput (or_latest (latest graph thread_id true) found w)
  unfolding or_latest
  or_latest-Yields none w n = latest-Yields n w
  or_latest-Yields (some output) w (snapshot, y, e) = (snapshot, inl y, e)

  final_state_values-Yields :
      (w : World) → Yields OwnOutput (final_state_values graph thread_id run_id true w)
  unfolding final_state_values
  final_state_values-Yields w =
      bind-Yields FoundOutput OwnOutput _ _ (read_history-Yields graph.history refl w)
        or_latest-Yields

unreadable-Yields :
    {A : Type 0} (P : A → Type 0) (run_id : ℕ) (e : Exn) (w : World)
    → Yields P (unreadable run_id e w)
unfolding unreadable
unreadable-Yields P run_id (Exn.http e) w = tt
unreadable-Yields P run_id (Exn.fault text) w = tt
unreadable-Yields P run_id Exn.cancelled w = tt

module _ (graph : Graph) (thread_id run_id : ℕ) where
  -- The run's output, filtered.
  abbrev pub IsCollected : Json × ℕ → Type 0
  IsCollected r =
      (snapshot : Snapshot) × IsOwn graph thread_id run_id snapshot
      × (r.0 ≡ filtered_output graph.output_keys (output_with_interrupts snapshot))

  -- The output alone.
  abbrev pub IsOutput : Json → Type 0
  IsOutput output =
      (snapshot : Snapshot) × IsOwn graph thread_id run_id snapshot
      × (output ≡ filtered_output graph.output_keys (output_with_interrupts snapshot))

module _ (graph : Graph) (thread_id run_id : ℕ) (task : Option (Done ℕ)) where
  collect_from-Yields :
      (final : Option RunRow) (w : World)
      → Yields
          (IsCollected graph thread_id run_id)
          (collect_from graph thread_id run_id task final w)
  unfolding collect_from
  collect_from-Yields none w = tt
  collect_from-Yields (some row) w = elim (Bool-cases (run_status_eq row.status RunStatus.error)) [
    | inl y ↦ rw (y, collect_from) tt
    | inr n ↦
        rw (n, collect_from)
          (bind-Yields (λ tokens. Unit {0}) (IsCollected graph thread_id run_id) _ _
            (any-Yields (tokens_of_task task w))
            (λ tokens u t.
              bind-Yields (OwnOutput graph thread_id run_id) (IsCollected graph thread_id run_id) _
                _
                (try-Yields (OwnOutput graph thread_id run_id) _ _
                  (final_state_values-Yields graph thread_id run_id u)
                  (unreadable-Yields (OwnOutput graph thread_id run_id) run_id))
                (λ output v y. (y.0, y.1, ap (filtered_output graph.output_keys) y.2))))
  ]

  collect-Yields :
      (w : World)
      → Yields
          (IsCollected graph thread_id run_id)
          (collect_terminal_output graph thread_id run_id task w)
  unfolding collect_terminal_output
  collect-Yields w =
      bind-Yields (λ final. Unit {0}) (IsCollected graph thread_id run_id) _ _
        (any-Yields (read_run_row thread_id run_id w)) (λ final u t. collect_from-Yields final u)

module _ (graph : Graph) (result : ℕ → Done ℕ) (thread_id run_id : ℕ) where
  join_task-Yields :
      (task : Option ℕ) (w : World)
      → Yields (IsCollected graph thread_id run_id) (join_task graph result thread_id run_id task w)
  unfolding join_task
  join_task-Yields none w =
      bind-Yields (λ run. Unit {0}) (IsCollected graph thread_id run_id) _ _
        (any-Yields (get_run thread_id run_id w))
        (λ run u t.
          bind-Yields (λ (ok : Unit {0}). Unit {0}) (IsCollected graph thread_id run_id) _ _
            (any-Yields (
              refuse_unless (not (in_flight run.status))
                (HttpError.no_joinable_task run_id run.status) u))
            (λ ok v t'. collect-Yields graph thread_id run_id none v))
  join_task-Yields (some task) w =
      bind-Yields (λ (done : Unit {0}). Unit {0}) (IsCollected graph thread_id run_id) _ _
        (any-Yields (wait_for_task w))
        (λ done u t. collect-Yields graph thread_id run_id (some (result run_id)) u)

-- Whatever fails, is cancelled or changes meanwhile: an output that `wait_run` or `join_run` gives is the
-- filtered output of the run's own snapshot, or of the thread's latest one where the graph has none of the
-- run. A read of the run's snapshots that failed never falls back to the latest state, which may be
-- another run's.
pub join_run_own :
    (id_text : ℕ → String) (graph : Graph) (result : ℕ → Done ℕ) (admitting : Bool)
    (thread_id run_id : ℕ) (request : RunRequest) (w : World)
    → Yields
        (IsCollected graph thread_id run_id)
        (wait_run id_text graph result thread_id run_id request w)
      × Yields
          (IsOutput graph thread_id run_id)
          (join_run graph result admitting thread_id run_id w)
unfolding wait_run join_run
join_run_own id_text graph result admitting thread_id run_id request w = (
  bind-Yields (λ row. Unit {0}) (IsCollected graph thread_id run_id) _ _
      (any-Yields (admit_and_spawn id_text thread_id run_id request w))
      (λ row u t.
        bind-Yields (λ (done : Unit {0}). Unit {0}) (IsCollected graph thread_id run_id) _ _
          (any-Yields (wait_for_task u))
          (λ done v t'. collect-Yields graph thread_id run_id (some (result run_id)) v)),
  bind-Yields (λ run. Unit {0}) (IsOutput graph thread_id run_id) _ _
      (any-Yields (get_run thread_id run_id w))
      (λ run u t.
        bind-Yields (λ (ok : Unit {0}). Unit {0}) (IsOutput graph thread_id run_id) _ _
          (any-Yields (await_admission admitting u))
          (λ ok v t'.
            bind-Yields (λ task. Unit {0}) (IsOutput graph thread_id run_id) (look_up_task run_id v)
              (λ task.
                join_task graph result thread_id run_id task >>= λ output. return_op output.0)
              (any-Yields (look_up_task run_id v))
              (λ task x t''.
                bind-Yields (IsCollected graph thread_id run_id) (IsOutput graph thread_id run_id)
                  (join_task graph result thread_id run_id task x) (λ output. return_op output.0)
                  (join_task-Yields graph result thread_id run_id task x) (λ output y h. h)))),
)
