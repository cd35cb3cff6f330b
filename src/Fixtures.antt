-- ===== src/Fixtures.antt =====
-- Sample rows for the tests: an administrator, two drivers, two vehicles, an agent, a hook.
use vehinode.Prelude.{Option, true, false, none, some, [], ◌∷◌}
use vehinode.Prelude.Int.{pos}
use vehinode.Json.{Json, Fields, end, field}
use vehinode.Models.{
  Key, Instant, User, Vehicle, VehicleAccessGrant, view, Device, Telemetry, Trigger, TriggerType,
  Hook, HookExecution, ExecutionStatus, Job, JobType, JobStatus, Db,
}

abbrev pub empty_db : Db
empty_db = record {
  users = [];
  identities = [];
  sessions = [];
  grants = [];
  settings = [];
  vehicles = [];
  photos = [];
  devices = [];
  tokens = [];
  telemetry = [];
  states = [];
  profiles = [];
  triggers = [];
  hooks = [];
  revisions = [];
  hook_states = [];
  executions = [];
  jobs = [];
  dashboards = [];
  heartbeats = [];
}

abbrev pub admin_fields : Fields
admin_fields = field "system.admin" (Json.bool true) end

abbrev pub user : Key → Fields → User
user k permissions = record {
  id = k;
  email = "someone@example.org";
  display_name = "Someone";
  is_active = true;
  can_create_profiles = false;
  permissions = permissions;
  created_at = k;
}

-- Two administrators, 1 and 2, and a driver, 3.
abbrev pub alice : User
alice = user 1 admin_fields

abbrev pub bob : User
bob = user 2 admin_fields

abbrev pub carol : User
carol = user 3 end

abbrev pub vehicle : Key → Vehicle
vehicle k = record {
  id = k;
  created_by = some 1;
  name = "C-Zero";
  manufacturer = "";
  model = "";
  year = none;
  vin = none;
  battery_nominal_capacity_kwh = none;
  vehicle_profile = none;
  timezone = "UTC";
  display_preferences = end;
  color = "#62d4a7";
  icon = "car";
  created_at = 0;
}

abbrev pub grant : Key → Key → VehicleAccessGrant
grant v u = record { vehicle_id = v; user_id = u; level = view }

-- Carol may view vehicle 10 and has nothing on vehicle 11.
abbrev pub garage : Db
garage = record empty_db {
  users = alice ∷ bob ∷ carol ∷ [];
  vehicles = vehicle 10 ∷ vehicle 11 ∷ [];
  grants = grant 10 3 ∷ [];
}

-- A hook job for the execution of the same number, and such an execution of hook 5.
abbrev pub job : Key → JobStatus → Option Instant → Job
job k status locked_at = record {
  id = k;
  type = JobType.hook_execute;
  execution_id = some k;
  status = status;
  attempts = 0;
  next_attempt_at = 0;
  locked_at = locked_at;
  locked_by = none;
  created_at = k;
  completed_at = none;
  last_error = none;
}

abbrev pub execution : Key → ExecutionStatus → HookExecution
execution k status = record {
  id = k;
  hook_id = 5;
  trigger_id = 6;
  telemetry_id = some 7;
  dry_run = false;
  status = status;
  started_at = none;
  finished_at = none;
  duration_seconds = none;
  logs = [];
  error = none;
}

-- An upload of vehicle 10 by the agent 20, with the trigger and the hook that it starts.
abbrev pub device : Device
device = record {
  id = 20;
  vehicle_id = 10;
  name = "Agent";
  credential_hash = "hash";
  credential_version = 1;
  agent_version = none;
  hostname = none;
  hardware = end;
  last_seen_at = none;
  last_config_sync_at = none;
  config_version = 1;
  sampling_seconds = 5;
  upload_seconds = 5;
  parked_sampling_seconds = 300;
  parked_upload_seconds = 300;
  revoked_at = none;
  created_at = 0;
}

abbrev pub reading : Key → Instant → Telemetry
reading k at = record {
  id = k;
  vehicle_id = 10;
  device_id = 20;
  boot_id = 1;
  sequence = k;
  recorded_at = at;
  received_at = at;
  latitude = none;
  longitude = none;
  altitude = none;
  gps_speed = none;
  heading = none;
  accuracy = none;
  metrics = field "soc" (Json.int (pos k)) end;
  device_data = end;
}

abbrev pub trigger : Trigger
trigger = record {
  id = 6;
  type = TriggerType.telemetry_received;
  version = 2;
  occurred_at = 100;
  vehicle_id = some 10;
  device_id = some 20;
  telemetry_id = some 7;
  payload = record { telemetry_id = 7; telemetry_ids = 7 ∷ []; boot_id = some 1; dry_run = none };
}

abbrev pub hook : Hook
hook = record {
  id = 5;
  created_by = some 1;
  vehicle_id = none;
  name = "Notify";
  description = "";
  enabled = true;
  trigger_type = TriggerType.telemetry_received;
  source = "pass";
  timeout_seconds = 10;
  revision = 1;
}

abbrev pub workshop : Db
workshop = record garage {
  devices = device ∷ [];
  telemetry = reading 7 100 ∷ [];
  triggers = trigger ∷ [];
  hooks = hook ∷ [];
  executions = execution 1 ExecutionStatus.pending ∷ [];
  jobs = job 1 JobStatus.pending none ∷ [];
}
