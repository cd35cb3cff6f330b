-- ===== src/Hooks/Manual.antt =====
-- `queue_manual_execution` of backend/app/hooks/services.py.
use vehinode.Prelude.{Bool, none, some, [], ◌∷◌, ◌++◌}
use vehinode.Models.{
  Key, Instant, Telemetry, Trigger, TriggerType, Hook, HookExecution, ExecutionStatus, Job, JobType,
  JobStatus, Db,
}

-- The identifiers of the rows that a manual execution adds.
pub record ManualIds : Type 0 where
  pub trigger : Key
  pub execution : Key
  pub job : Key

unfoldable pub manual_trigger : ManualIds → Instant → Telemetry → Bool → Trigger
manual_trigger new now telemetry dry_run = record {
  id = new.trigger;
  type = TriggerType.manual_test;
  version = 2;
  occurred_at = now;
  vehicle_id = some telemetry.vehicle_id;
  device_id = some telemetry.device_id;
  telemetry_id = some telemetry.id;
  payload = record {
    telemetry_id = telemetry.id;
    telemetry_ids = telemetry.id ∷ [];
    boot_id = none;
    dry_run = some dry_run;
  };
}

unfoldable pub manual_execution : ManualIds → Hook → Telemetry → Bool → HookExecution
manual_execution new hook telemetry dry_run = record {
  id = new.execution;
  hook_id = hook.id;
  trigger_id = new.trigger;
  telemetry_id = some telemetry.id;
  dry_run = dry_run;
  status = ExecutionStatus.pending;
  started_at = none;
  finished_at = none;
  duration_seconds = none;
  logs = [];
  error = none;
}

unfoldable pub manual_job : ManualIds → Instant → Job
manual_job new now = record {
  id = new.job;
  type = JobType.hook_execute;
  execution_id = some new.execution;
  status = JobStatus.pending;
  attempts = 0;
  next_attempt_at = now;
  locked_at = none;
  locked_by = none;
  created_at = now;
  completed_at = none;
  last_error = none;
}

unfoldable pub queue_manual_execution :
    ManualIds → Instant → Db → Hook → Telemetry → Bool → HookExecution × Db
queue_manual_execution new now db hook telemetry dry_run =
    let execution = manual_execution new hook telemetry dry_run in
    (
      execution,
      record db {
        triggers = db.triggers ++ manual_trigger new now telemetry dry_run ∷ [];
        executions = db.executions ++ execution ∷ [];
        jobs = db.jobs ++ manual_job new now ∷ [];
      },
    )
