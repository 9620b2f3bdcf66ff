-- ===== src/RunOps/Ending.antt =====
-- ops/runs.py: how the stream of a join without history ends, in every world.
use skeino.Base.{
  ℕ, ◌≡◌, refl, Bool, false, Option, none, some, List, [], ◌∷◌, ◌++◌, Bool-cases, inl, inr,
}
use skeino.Json.{Json, Fields}
use skeino.Schemas.{RunStatus, RunRow, run_status_eq}
use skeino.Text.{Text}
use skeino.Outputs.{is_allowed, keep_allowed, filter_values}
use skeino.Outputs.Keys.{MayPass, is_allowed-MayPass}
use skeino.RunOps.{Exn, Done, World, Op, return_op, continue_with, handle_with}
use skeino.RunOps.Writes.{read_run_row, except_exception}
use skeino.RunOps.Admission.{wait_for_task}
use skeino.RunOps.Finals.{Graph}
use skeino.RunOps.FinalEvents.{
  FinalEvent, await_task, wait_failed, read_output, values_event, report, reread, read_events,
  or_read, final_state_events,
}
use skeino.RunOps.Yields.{Yields, bind-Yields, any-Yields}

-- All the keys are keys that a client may see.
abbrev pub OnlyAllowed : Option (List Text) → Fields → Type 0
OnlyAllowed output_keys Fields.end = Unit
OnlyAllowed output_keys (Fields.field key value fields) =
    MayPass output_keys key × OnlyAllowed output_keys fields

abbrev pub NotError : RunStatus → Type 0
NotError status = run_status_eq status RunStatus.error ≡ false

-- One event that ends the stream, after the values if there are any.
abbrev pub IsFinal : Option (List Text) → ℕ → List FinalEvent → Type 0
IsFinal output_keys run_id (FinalEvent.unclean k ∷ []) = k ≡ run_id
IsFinal output_keys run_id (FinalEvent.unreadable_state k ∷ []) = k ≡ run_id
IsFinal output_keys run_id (FinalEvent.not_found k ∷ []) = k ≡ run_id
IsFinal output_keys run_id (FinalEvent.failed k text ∷ []) = k ≡ run_id
IsFinal output_keys run_id (FinalEvent.ended k status ∷ []) = (k ≡ run_id) × NotError status
IsFinal output_keys run_id (FinalEvent.final_values fields ∷ FinalEvent.ended k status ∷ []) =
    OnlyAllowed output_keys fields × ((k ≡ run_id) × NotError status)
IsFinal output_keys run_id events = ⊥

abbrev pub Ends : Option (List Text) → ℕ → Done (List FinalEvent) × World → Type 0
Ends output_keys run_id (Done.returns events, w) = IsFinal output_keys run_id events
Ends output_keys run_id (Done.raises e, w) = e ≡ Exn.cancelled

OnlyAllowed-none : (fields : Fields) → OnlyAllowed none fields
OnlyAllowed-none Fields.end = tt
OnlyAllowed-none (Fields.field key value fields) = (tt, OnlyAllowed-none fields)

keep_allowed-OnlyAllowed :
    (output_keys : Option (List Text)) (fields : Fields)
    → OnlyAllowed output_keys (keep_allowed output_keys fields)
unfolding keep_allowed
keep_allowed-OnlyAllowed output_keys Fields.end = tt
keep_allowed-OnlyAllowed output_keys (Fields.field key value fields) =
    let h = keep_allowed-OnlyAllowed output_keys fields in
    elim (Bool-cases (is_allowed output_keys key)) [
      | inl y ↦ rw (y, keep_allowed) (is_allowed-MayPass output_keys key y, h)
      | inr n ↦ rw (n, keep_allowed) h
    ]

filter_values-OnlyAllowed :
    (output_keys : Option (List Text)) (fields : Fields)
    → OnlyAllowed output_keys (filter_values output_keys fields)
unfolding filter_values
filter_values-OnlyAllowed none fields = OnlyAllowed-none fields
filter_values-OnlyAllowed (some keys) fields = keep_allowed-OnlyAllowed (some keys) fields

module _ (output_keys : Option (List Text)) (run_id : ℕ) where
  values_event-IsFinal :
      (output : Json) (status : RunStatus)
      → NotError status
      → IsFinal output_keys run_id
          (values_event output_keys output ++ FinalEvent.ended run_id status ∷ [])
  unfolding values_event
  values_event-IsFinal (Json.obj fields) status n =
      (filter_values-OnlyAllowed output_keys fields, (refl, n))
  values_event-IsFinal Json.null status n = (refl, n)
  values_event-IsFinal (Json.bool b) status n = (refl, n)
  values_event-IsFinal (Json.int k) status n = (refl, n)
  values_event-IsFinal (Json.float text) status n = (refl, n)
  values_event-IsFinal (Json.str text) status n = (refl, n)
  values_event-IsFinal (Json.arr items) status n = (refl, n)

  report-IsFinal :
      (row : Option RunRow) (output : Json)
      → IsFinal output_keys run_id (report output_keys run_id row output)
  unfolding report
  report-IsFinal none output = refl
  report-IsFinal (some row) output = elim (Bool-cases (run_status_eq row.status RunStatus.error)) [
    | inl y ↦ rw (y, report) refl
    | inr n ↦ rw (n, report) (values_event-IsFinal output row.status n)
  ]

  except-Ends :
      (r : Done (List FinalEvent) × World)
      → Yields (IsFinal output_keys run_id) r
      → Ends output_keys run_id
          (handle_with (except_exception (FinalEvent.unreadable_state run_id ∷ [])) r)
  unfolding except_exception
  except-Ends (Done.returns events, w) h = h
  except-Ends (Done.raises (Exn.http e), w) h = refl
  except-Ends (Done.raises (Exn.fault text), w) h = refl
  except-Ends (Done.raises Exn.cancelled, w) h = refl

  -- What the wait for the task comes to.
  abbrev Waited : Done (Option (List FinalEvent)) × World → Type 0
  Waited (Done.returns none, w) = Unit
  Waited (Done.returns (some events), w) = IsFinal output_keys run_id events
  Waited (Done.raises e, w) = e ≡ Exn.cancelled

  wait-Waited :
      (task : ℕ) (cancel_on_disconnect : Bool) (r : Done (Unit {0}) × World)
      → Waited (
          handle_with
            (wait_failed run_id task cancel_on_disconnect)
            (continue_with (λ u. return_op none) r))
  unfolding wait_failed
  wait-Waited task c (Done.returns u, w) = tt
  wait-Waited task c (Done.raises (Exn.http e), w) = refl
  wait-Waited task c (Done.raises (Exn.fault text), w) = refl
  wait-Waited task c (Done.raises Exn.cancelled, w) = refl

  await_task-Waited :
      (task : Option ℕ) (cancel_on_disconnect : Bool) (w : World)
      → Waited (await_task run_id task cancel_on_disconnect w)
  unfolding await_task
  await_task-Waited none c w = tt
  await_task-Waited (some task) c w = wait-Waited task c (wait_for_task w)

  or_read-Ends :
      (read : Op (List FinalEvent)) (r : Done (Option (List FinalEvent)) × World)
      → ((w : World) → Ends output_keys run_id (read w))
      → Waited r
      → Ends output_keys run_id (continue_with (or_read read) r)
  unfolding or_read
  or_read-Ends read (Done.returns none, w) h y = h w
  or_read-Ends read (Done.returns (some events), w) h y = y
  or_read-Ends read (Done.raises e, w) h y = y

read_events-Ends :
    (dict_now : World → RunRow → RunRow) (graph : Graph) (thread_id run_id : ℕ)
    (stream_modes : List Text) (w : World)
    → Ends graph.output_keys run_id (read_events dict_now graph thread_id run_id stream_modes w)
unfolding read_events
read_events-Ends dict_now graph thread_id run_id stream_modes w =
    except-Ends graph.output_keys run_id _ (
      bind-Yields (λ row. Unit {0}) (IsFinal graph.output_keys run_id) _ _
        (any-Yields (read_run_row thread_id run_id w))
        (λ row u t.
          bind-Yields (λ output. Unit {0}) (IsFinal graph.output_keys run_id) _ _
            (any-Yields (read_output graph thread_id run_id stream_modes row u))
            (λ output v t'.
              bind-Yields (λ now. Unit {0}) (IsFinal graph.output_keys run_id) _ _
                (any-Yields (reread dict_now row v))
                (λ now x t''. report-IsFinal graph.output_keys run_id now output))))

-- Whatever fails or changes meanwhile, also in the run's row while the state is read, the stream of a join
-- without history is one error event, or one end event of the run with a status that is not `error`, after
-- at most one values event that shows only keys that a client may see: all of them without an output
-- schema, else those of the schema and those that begin and end with two underscores. Unless it is
-- cancelled, and nothing else is raised.
pub final_state_events-Ends :
    (dict_now : World → RunRow → RunRow) (graph : Graph) (thread_id run_id : ℕ) (task : Option ℕ)
    (stream_modes : List Text) (cancel_on_disconnect : Bool) (w : World)
    → Ends graph.output_keys run_id (
        final_state_events dict_now graph thread_id run_id task stream_modes cancel_on_disconnect w)
unfolding final_state_events
final_state_events-Ends dict_now graph thread_id run_id task stream_modes cancel_on_disconnect w =
    or_read-Ends graph.output_keys run_id (read_events dict_now graph thread_id run_id stream_modes)
      _ (read_events-Ends dict_now graph thread_id run_id stream_modes)
      (await_task-Waited graph.output_keys run_id task cancel_on_disconnect w)
