-- ===== src/ThreadOps.antt =====
-- ops/threads.py, ThreadOps: the operations that write a thread's row, as computations of the world of
-- RunOps. They answer with the row that the API model is built from; `id_text` is the text of a UUID.
-- The supersteps of `create` go to the graph and are not modelled: a creation here has none.
pub mod Deletion
use skeino.Base.{ℕ, String, Bool, true, false, Option, none, some, List, [], ◌∷◌, ◌++◌}
use skeino.Errors.{HttpError}
use skeino.Json.{Json, Fields}
use skeino.Schemas.{ThreadRow, ThreadIfExists, RunIfNotExists, ThreadTtlConfig}
use skeino.Store.{Store, Result, ok, err, ThreadUpdate, create_thread, update_thread, delete_thread}
use skeino.RunOps.{Exn, Done, World, Op, return_op, raise_op, ◌>>=◌, ◌>>◌, try_op, await_op}
use skeino.RunOps.Writes.{except_exception}
use skeino.RunOps.Requests.{read_thread_row, require_row, ensure_exists}

unfoldable pub thread_config : (ℕ → String) → ℕ → Fields
thread_config id_text thread_id =
    Fields.field "configurable"
      (Json.obj (Fields.field "thread_id" (Json.str (id_text thread_id)) Fields.end)) Fields.end

-- ThreadCreateRequest
pub record CreateRequest : Type 0 where
  pub metadata : Fields
  pub ttl : Option ThreadTtlConfig
  pub if_exists : ThreadIfExists

abbrev pub create_effect : (ℕ → String) → ℕ → CreateRequest → ℕ → World → Result ThreadRow × World
create_effect id_text thread_id request now w =
    let (result, s) =
      create_thread now w.store thread_id request.metadata (thread_config id_text thread_id)
        request.ttl request.if_exists in
    (result, record w { store = s })

unfoldable pub row_or_raise : Result ThreadRow → Op ThreadRow
row_or_raise (ok row) = return_op row
row_or_raise (err e) = raise_op (Exn.http e)

unfoldable pub create : (ℕ → String) → ℕ → CreateRequest → Op ThreadRow
unfolding await_op thread_config row_or_raise
create id_text thread_id request = do
  result ← await_op (create_effect id_text thread_id request)
  row_or_raise result

-- The request that `ensure_thread_for_run` builds.
abbrev pub on_demand : CreateRequest
on_demand = record { metadata = Fields.end; ttl = none; if_exists = ThreadIfExists.do_nothing }

unfoldable pub create_on_demand :
    (ℕ → String) → ℕ → RunIfNotExists → Option ThreadRow → Op (Unit {0})
unfolding create
create_on_demand id_text thread_id if_not_exists (some row) = return_op tt
create_on_demand id_text thread_id RunIfNotExists.create none = do
  row ← create id_text thread_id on_demand
  return_op tt
create_on_demand id_text thread_id RunIfNotExists.reject none =
    raise_op (Exn.http (HttpError.thread_not_found thread_id))

unfoldable pub ensure_thread_for_run : (ℕ → String) → ℕ → RunIfNotExists → Op (Unit {0})
unfolding read_thread_row create_on_demand
ensure_thread_for_run id_text thread_id if_not_exists = do
  row ← read_thread_row thread_id
  create_on_demand id_text thread_id if_not_exists row

abbrev pub metadata_effect : ℕ → Fields → ℕ → World → Unit {0} × World
metadata_effect thread_id metadata now w =
    let u : ThreadUpdate = record {
      status_value = none;
      config = none;
      metadata = some metadata;
      mark_state_updated = false;
    } in
    (tt, record w { store = update_thread now now w.store thread_id u })

-- update
unfoldable pub update_metadata : ℕ → Fields → Op ThreadRow
unfolding ensure_exists require_row await_op
update_metadata thread_id metadata = do
  ensure_exists thread_id
  await_op (metadata_effect thread_id metadata)
  require_row thread_id

abbrev pub checkpoints_effect : ℕ → ℕ → World → Unit {0} × World
checkpoints_effect thread_id now w =
    (tt, record w { deleted_checkpoints = thread_id ∷ w.deleted_checkpoints })

abbrev pub rows_effect : ℕ → ℕ → World → Unit {0} × World
rows_effect thread_id now w = (tt, record w { store = delete_thread w.store thread_id })

-- `getattr(checkpointer, "adelete_thread", None)`: whether the graph has a checkpointer that can delete a
-- thread
unfoldable pub delete_checkpoints : Bool → ℕ → Op (Unit {0})
unfolding await_op
delete_checkpoints false thread_id = return_op tt
delete_checkpoints true thread_id = await_op (checkpoints_effect thread_id)

unfoldable pub delete : Bool → ℕ → Op (Unit {0})
unfolding ensure_exists delete_checkpoints await_op
delete can_delete thread_id = do
  ensure_exists thread_id
  delete_checkpoints can_delete thread_id
  await_op (rows_effect thread_id)

-- _discard_thread of ops/runs.py
unfoldable pub discard_thread : Bool → ℕ → Op (Unit {0})
unfolding delete except_exception
discard_thread can_delete thread_id = try_op (delete can_delete thread_id) (except_exception tt)
