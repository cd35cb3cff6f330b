-- ===== src/Models/Automation.antt =====
-- backend/app/hooks/models.py and backend/app/jobs/models.py.
use vehinode.Prelude.{ℕ, String, Bool, Option, List}
use vehinode.Json.{Double, Json, Fields}
use vehinode.Models.Types.{Key, Instant}

-- The values of `Trigger.type` that the code writes.
pub data TriggerType : Type 0 where
  telemetry_received manual_test : TriggerType

-- The keys of `Trigger.payload` that the code writes.
pub record TriggerPayload : Type 0 where
  pub telemetry_id : Key
  pub telemetry_ids : List Key
  pub boot_id : Option Key
  pub dry_run : Option Bool

pub record Trigger : Type 0 where
  pub id : Key
  pub type : TriggerType
  pub version : ℕ
  pub occurred_at : Instant
  pub vehicle_id : Option Key
  pub device_id : Option Key
  pub telemetry_id : Option Key
  pub payload : TriggerPayload

pub record Hook : Type 0 where
  pub id : Key
  pub created_by : Option Key
  pub vehicle_id : Option Key
  pub name : String
  pub description : String
  pub enabled : Bool
  pub trigger_type : TriggerType
  pub source : String
  pub timeout_seconds : ℕ
  pub revision : ℕ

pub record HookRevision : Type 0 where
  pub id : Key
  pub hook_id : Key
  pub revision : ℕ
  pub source : String
  pub created_by : Key

pub record HookState : Type 0 where
  pub hook_id : Key
  pub value : Json
  pub version : ℕ
  pub updated_at : Instant

-- The values of `HookExecution.status` that the code writes, a child's result among them.
pub data ExecutionStatus : Type 0 where
  pending running success failed timeout : ExecutionStatus

pub record HookExecution : Type 0 where
  pub id : Key
  pub hook_id : Key
  pub trigger_id : Key
  pub telemetry_id : Option Key
  pub dry_run : Bool
  pub status : ExecutionStatus
  pub started_at : Option Instant
  pub finished_at : Option Instant
  pub duration_seconds : Option Double
  pub logs : List Fields
  pub error : Option String

-- The values of `Job.status` that the code writes.
pub data JobStatus : Type 0 where
  pending running completed failed : JobStatus

-- `other` is any type that the worker does not know.
pub data JobType : Type 0 where
  hook_execute other : JobType

pub record Job : Type 0 where
  pub id : Key
  pub type : JobType
  -- `payload.get("execution_id")` where that is a string
  pub execution_id : Option Key
  pub status : JobStatus
  pub attempts : ℕ
  pub next_attempt_at : Instant
  pub locked_at : Option Instant
  pub locked_by : Option String
  pub created_at : Instant
  pub completed_at : Option Instant
  pub last_error : Option String

pub record WorkerHeartbeat : Type 0 where
  pub worker_id : String
  pub version : String
  pub seen_at : Instant
