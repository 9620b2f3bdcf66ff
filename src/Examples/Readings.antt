-- ===== src/Examples/Readings.antt =====
-- A graph with two snapshots of the run 9, whose newest waits on an interrupt, and an output schema with
-- the one key `answer`.
use skeino.Base.{get, none, some, true, some, List, [], ◌∷◌}
use skeino.Json.{Json, Fields}
use skeino.Schemas.{MultitaskStrategy, RunRow}
use skeino.Text.{Text, codes}
use skeino.Outputs.{Snapshot, field_of, filter_values, filter_updates}
use skeino.Outputs.Allowed.{Passed, UpdatePassed, filters_exact}
use skeino.RunOps.{Exn, Done, World}
use skeino.RunOps.Admission.{RunRequest}
use skeino.RunOps.Finals.{Graph}
use skeino.RunOps.FinalEvents.{final_state_events}
use skeino.RunOps.Waiting.{wait_run, join_run}
use skeino.RunOps.Yields.{Yields}
use skeino.RunOps.Reading.{IsCollected, IsOutput, join_run_own}
use skeino.RunOps.Ending.{Ends, final_state_events-Ends}
use skeino.Examples.Admissions.{exclusive, with_task}

abbrev answer_key : List Text
answer_key = codes "answer" ∷ []

abbrev state_of_run : Fields
state_of_run =
    Fields.field "answer" (Json.str "42") (Fields.field "notes" (Json.str "draft") Fields.end)

abbrev parked : Snapshot
parked = record {
  values = Json.obj state_of_run;
  interrupts = Json.str "approve?" ∷ [];
  task_interrupts = [];
}

abbrev graph : Graph
graph = record {
  history = some (λ now thread_id run_id. Done.returns (some parked));
  state = λ now thread_id. Done.raises (Exn.fault "no checkpointer");
  output_keys = some answer_key;
}

abbrev enqueued : RunRequest
enqueued = record exclusive { multitask_strategy = MultitaskStrategy.enqueue }

join_run_own_example :
    Yields
      (IsCollected graph 2 9)
      (wait_run (λ k. "") graph (λ k. Done.returns 7) 2 9 enqueued with_task)
    × Yields (IsOutput graph 2 9) (join_run graph (λ k. Done.returns 7) true 2 9 with_task)
join_run_own_example =
    join_run_own (λ k. "") graph (λ k. Done.returns 7) true 2 9 enqueued with_task

-- The dict of InMemoryMetadataStore; of a deleted run, as it was fetched.
abbrev stored_row : World → RunRow → RunRow
stored_row w row = elim (get w.store.runs row.run_id) [ none ↦ row | some stored ↦ stored ]

final_state_events-Ends_example :
    Ends
      (some answer_key)
      9
      (final_state_events stored_row graph 2 9 (some 0) (codes "values" ∷ []) true with_task)
final_state_events-Ends_example =
    final_state_events-Ends stored_row graph 2 9 (some 0) (codes "values" ∷ []) true with_task

-- The nodes `agent`, which wrote that state, and `notes`.
abbrev update_of_run : Fields
update_of_run =
    Fields.field "agent" (Json.obj state_of_run) (Fields.field "notes" Json.null Fields.end)

filters_exact_example :
    Passed (some answer_key) update_of_run (filter_values (some answer_key) update_of_run) "notes"
    × UpdatePassed
        (some answer_key)
        "agent"
        "notes"
        (field_of update_of_run "agent")
        (field_of (filter_updates (some answer_key) update_of_run) "agent")
filters_exact_example = filters_exact (some answer_key) update_of_run "agent" "notes"
