-- ===== src/Schemas.antt =====
-- schemas/common.py, schemas/threads.py and persistence/base.py: the enumerations, the row shapes
-- and the thread requests. An id is a UUID (the API parses every one), here its number; a datetime
-- and a duration are numbers of microseconds, the resolution of Python's datetime and timedelta.
use skeino.Base.{ℕ, Bool, true, false, Option, List, String, ◌==◌}
use skeino.Json.{Fields}

pub data ThreadStatus : Type 0 where
  idle busy interrupted error : ThreadStatus

pub data RunStatus : Type 0 where
  pending running error success timeout interrupted : RunStatus

pub data MultitaskStrategy : Type 0 where
  reject rollback interrupt enqueue : MultitaskStrategy

pub data CancelAction : Type 0 where
  interrupt rollback : CancelAction

pub data ThreadIfExists : Type 0 where
  raise do_nothing : ThreadIfExists

pub data RunIfNotExists : Type 0 where
  create reject : RunIfNotExists

-- The place of a status in the order of its text, by which the store sorts and compares.
abbrev pub thread_rank : ThreadStatus → ℕ
thread_rank ThreadStatus.busy = 0
thread_rank ThreadStatus.error = 1
thread_rank ThreadStatus.idle = 2
thread_rank ThreadStatus.interrupted = 3

abbrev pub run_rank : RunStatus → ℕ
run_rank RunStatus.error = 0
run_rank RunStatus.interrupted = 1
run_rank RunStatus.pending = 2
run_rank RunStatus.running = 3
run_rank RunStatus.success = 4
run_rank RunStatus.timeout = 5

abbrev pub thread_status_eq : ThreadStatus → ThreadStatus → Bool
thread_status_eq a b = thread_rank a == thread_rank b

abbrev pub run_status_eq : RunStatus → RunStatus → Bool
run_status_eq a b = run_rank a == run_rank b

-- IN_FLIGHT_RUN_STATUSES
abbrev pub in_flight : RunStatus → Bool
in_flight RunStatus.pending = true
in_flight RunStatus.running = true
in_flight _ = false

pub data TtlStrategy : Type 0 where
  delete keep_latest : TtlStrategy

pub record ThreadTtlConfig : Type 0 where
  pub strategy : TtlStrategy
  pub ttl : Option ℕ

-- The dict that `ttl_payload` builds.
pub record TtlPayload : Type 0 where
  pub strategy : TtlStrategy
  pub ttl_minutes : ℕ
  pub expires_at : ℕ

pub record ThreadRow : Type 0 where
  pub thread_id : ℕ
  pub created_at : ℕ
  pub updated_at : ℕ
  pub state_updated_at : Option ℕ
  pub metadata : Fields
  pub config : Fields
  pub status : ThreadStatus
  pub ttl : Option TtlPayload

pub record RunRow : Type 0 where
  pub run_id : ℕ
  pub thread_id : ℕ
  pub assistant_id : String
  pub created_at : ℕ
  pub updated_at : ℕ
  pub status : RunStatus
  pub metadata : Fields
  pub kwargs : Fields
  pub multitask_strategy : MultitaskStrategy
  pub error : Option String

pub data SortField : Type 0 where
  thread_id status created_at updated_at state_updated_at : SortField

pub record ThreadSearchRequest : Type 0 where
  pub ids : Option (List ℕ)
  pub metadata : Option Fields
  pub values : Option Fields
  pub status : Option ThreadStatus
  pub limit : ℕ
  pub offset : ℕ
  pub sort_by : Option SortField
  pub ascending : Bool
