-- ===== src/RunOps/FinalEvents.antt =====
-- ops/runs.py: `_final_state_events`, what a join of a finished run without history streams. Its events
-- come after its last await, so they are the list that it returns.
use skeino.Base.{
  ℕ, Bool, true, not, ◌&&◌, Option, none, some, List, [], ◌∷◌, ◌++◌, String, if◌then◌else◌, get,
}
use skeino.Json.{Json, Fields}
use skeino.Schemas.{RunStatus, RunRow, run_status_eq}
use skeino.Stream.{stream_mode_matches}
use skeino.Text.{Text, codes}
use skeino.Outputs.{filter_values}
use skeino.Concurrency.{BackgroundRunRegistry, request_cancel, ref_done}
use skeino.RunOps.{Exn, Done, World, Op, return_op, ◌>>=◌, ◌>>◌, try_op}
use skeino.RunOps.Writes.{read_run_row, except_exception}
use skeino.RunOps.Requests.{detail_of}
use skeino.RunOps.Admission.{wait_for_task}
use skeino.RunOps.Finals.{Graph, final_state_values}

-- The "error" events by their details, "values" and "end".
pub data FinalEvent : Type 0 where
  unclean unreadable_state not_found : ℕ → FinalEvent
  failed : ℕ → String → FinalEvent
  final_values : Fields → FinalEvent
  ended : ℕ → RunStatus → FinalEvent

abbrev pub or_task : Option ℕ → ℕ → ℕ
or_task none task = task
or_task (some current) task = current

-- The client of a waiting join left. `task` and `current` are references of tasks.
unfoldable pub cancel_current : BackgroundRunRegistry → ℕ → ℕ → BackgroundRunRegistry
unfolding request_cancel
cancel_current r run_id task =
    let current = or_task (get r.tasks run_id) task in
    if ref_done r current then r else request_cancel r current

unfoldable pub wait_failed : ℕ → ℕ → Bool → Exn → Op (Option (List FinalEvent))
unfolding cancel_current
wait_failed run_id task cancel_on_disconnect (Exn.http e) w =
    (Done.returns (some (FinalEvent.unclean run_id ∷ [])), w)
wait_failed run_id task cancel_on_disconnect (Exn.fault text) w =
    (Done.returns (some (FinalEvent.unclean run_id ∷ [])), w)
wait_failed run_id task cancel_on_disconnect Exn.cancelled w = (
  Done.raises Exn.cancelled,
  record w {
    registry = if cancel_on_disconnect then cancel_current w.registry run_id task else w.registry;
  },
)

-- The events if the wait for the task fails, else none.
unfoldable pub await_task : ℕ → Option ℕ → Bool → Op (Option (List FinalEvent))
unfolding wait_for_task wait_failed
await_task run_id none cancel_on_disconnect = return_op none
await_task run_id (some task) cancel_on_disconnect =
    try_op (wait_for_task >> return_op none) (wait_failed run_id task cancel_on_disconnect)

unfoldable pub read_output : Graph → ℕ → ℕ → List Text → Option RunRow → Op Json
unfolding final_state_values
read_output graph thread_id run_id stream_modes none = return_op Json.null
read_output graph thread_id run_id stream_modes (some row) =
    if not (run_status_eq row.status RunStatus.error)
      && stream_mode_matches (codes "values") stream_modes
    then final_state_values graph thread_id run_id true
    else return_op Json.null

unfoldable pub values_event : Option (List Text) → Json → List FinalEvent
unfolding filter_values
values_event output_keys (Json.obj fields) =
    FinalEvent.final_values (filter_values output_keys fields) ∷ []
values_event output_keys Json.null = []
values_event output_keys (Json.bool b) = []
values_event output_keys (Json.int n) = []
values_event output_keys (Json.float text) = []
values_event output_keys (Json.str text) = []
values_event output_keys (Json.arr items) = []

unfoldable pub report : Option (List Text) → ℕ → Option RunRow → Json → List FinalEvent
unfolding values_event
report output_keys run_id none output = FinalEvent.not_found run_id ∷ []
report output_keys run_id (some row) output =
    if run_status_eq row.status RunStatus.error
    then FinalEvent.failed run_id (detail_of row.error) ∷ []
    else values_event output_keys output ++ FinalEvent.ended run_id row.status ∷ []

-- The row is the dict that the store answered with. InMemoryMetadataStore hands out its own dict, which
-- others may write while the state is read: `dict_now` is what a dict that was fetched holds by now.
unfoldable pub reread : (World → RunRow → RunRow) → Option RunRow → Op (Option RunRow)
reread dict_now none w = (Done.returns none, w)
reread dict_now (some row) w = (Done.returns (some (dict_now w row)), w)

unfoldable pub read_events :
    (World → RunRow → RunRow) → Graph → ℕ → ℕ → List Text → Op (List FinalEvent)
unfolding read_run_row read_output reread report except_exception
read_events dict_now graph thread_id run_id stream_modes =
    try_op
      (do
        fetched ← read_run_row thread_id run_id
        output ← read_output graph thread_id run_id stream_modes fetched
        row ← reread dict_now fetched
        return_op (report graph.output_keys run_id row output))
      (except_exception (FinalEvent.unreadable_state run_id ∷ []))

unfoldable pub or_read : Op (List FinalEvent) → Option (List FinalEvent) → Op (List FinalEvent)
or_read read none = read
or_read read (some events) = return_op events

unfoldable pub final_state_events :
    (World → RunRow → RunRow) → Graph → ℕ → ℕ → Option ℕ → List Text → Bool → Op (List FinalEvent)
unfolding await_task read_events or_read
final_state_events dict_now graph thread_id run_id task stream_modes cancel_on_disconnect =
    await_task run_id task cancel_on_disconnect
    >>= or_read (read_events dict_now graph thread_id run_id stream_modes)
