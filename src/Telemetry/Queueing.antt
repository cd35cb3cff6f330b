-- ===== src/Telemetry/Queueing.antt =====
-- `_enqueue_hooks` of backend/app/telemetry/services.py.
use vehinode.Prelude.{
  Bool, true, false, ◌&&◌, ◌||◌, none, some, List, [], ◌∷◌, ◌++◌, map, is_none, eq_some,
}
use vehinode.Prelude.Table.{select}
use vehinode.Models.{
  Key, Instant, Telemetry, Trigger, TriggerType, Hook, HookExecution, ExecutionStatus, Job, JobType,
  JobStatus, Db,
}

-- The identifiers that `new_id` gives to the rows that an upload starts: one trigger, and for the
-- hook of a key one execution and one job.
pub record NewIds : Type 0 where
  pub trigger : Key
  pub execution : Key → Key
  pub job : Key → Key

-- `samples[-1]` of a list that is not empty
abbrev pub last_row : Telemetry → List Telemetry → Telemetry
last_row t [] = t
last_row t (u ∷ us) = last_row u us

abbrev pub is_telemetry_received : TriggerType → Bool
is_telemetry_received TriggerType.telemetry_received = true
is_telemetry_received _ = false

-- The hooks that an upload of a vehicle starts.
unfoldable pub is_subscribed : Key → Hook → Bool
is_subscribed vehicle_id hook =
    hook.enabled
    && is_telemetry_received hook.trigger_type
    && (is_none hook.vehicle_id || eq_some hook.vehicle_id vehicle_id)

unfoldable pub new_trigger : NewIds → Telemetry → List Telemetry → Trigger
new_trigger new latest samples = record {
  id = new.trigger;
  type = TriggerType.telemetry_received;
  version = 2;
  occurred_at = latest.recorded_at;
  vehicle_id = some latest.vehicle_id;
  device_id = some latest.device_id;
  telemetry_id = some latest.id;
  payload = record {
    telemetry_id = latest.id;
    telemetry_ids = map (λ (t : Telemetry). t.id) samples;
    boot_id = some latest.boot_id;
    dry_run = none;
  };
}

-- The columns that the caller does not set have the defaults of the tables.
unfoldable pub new_execution : NewIds → Key → Hook → HookExecution
new_execution new telemetry_id hook = record {
  id = new.execution hook.id;
  hook_id = hook.id;
  trigger_id = new.trigger;
  telemetry_id = some telemetry_id;
  dry_run = false;
  status = ExecutionStatus.pending;
  started_at = none;
  finished_at = none;
  duration_seconds = none;
  logs = [];
  error = none;
}

unfoldable pub new_job : NewIds → Instant → Hook → Job
new_job new now hook = record {
  id = new.job hook.id;
  type = JobType.hook_execute;
  execution_id = some (new.execution hook.id);
  status = JobStatus.pending;
  attempts = 0;
  next_attempt_at = now;
  locked_at = none;
  locked_by = none;
  created_at = now;
  completed_at = none;
  last_error = none;
}

-- A pass of the loop of `_enqueue_hooks`.
abbrev pub enqueue_hook : NewIds → Instant → Key → Hook → Db → Db
enqueue_hook new now telemetry_id hook db = record db {
  executions = db.executions ++ new_execution new telemetry_id hook ∷ [];
  jobs = db.jobs ++ new_job new now hook ∷ [];
}

unfoldable pub enqueue_each : NewIds → Instant → Key → List Hook → Db → Db
enqueue_each new now telemetry_id [] db = db
enqueue_each new now telemetry_id (hook ∷ hooks) db =
    enqueue_each new now telemetry_id hooks (enqueue_hook new now telemetry_id hook db)

abbrev pub add_trigger : Trigger → Db → Db
add_trigger trigger db = record db { triggers = db.triggers ++ trigger ∷ [] }

unfoldable pub enqueue_hooks : NewIds → Instant → List Telemetry → Db → Db
enqueue_hooks new now [] db = db
enqueue_hooks new now (t ∷ ts) db =
    let latest = last_row t ts in
    enqueue_each new now latest.id (select (is_subscribed latest.vehicle_id) db.hooks)
      (add_trigger (new_trigger new latest (t ∷ ts)) db)
