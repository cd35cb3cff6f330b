-- ===== src/Telemetry.antt =====
-- backend/app/telemetry/services.py and backend/app/telemetry/routes.py: an agent uploads a batch of
-- samples, which are stored, merged into the vehicle's current state, and handed to the hooks.
pub mod Rows
mod Queueing
pub mod Schemas
mod Current
pub mod Uploads
mod Enqueued
mod Queue
mod Tests
pub use Queueing.{NewIds, last_row, is_telemetry_received, enqueue_hook, add_trigger}
unfoldable pub use Queueing.{
  is_subscribed, new_trigger, new_execution, new_job, enqueue_each, enqueue_hooks,
}
use vehinode.Prelude.{
  ℕ, Bool, true, false, not, ◌&&◌, ◌||◌, Option, none, some, List, [], ◌∷◌, ◌++◌, map, ◌==◌, ltb,
  distinct, if◌then◌else◌, is_some, is_none, eq_some,
}
use vehinode.Prelude.Table.{find, any, select, update_where, order_by}
use vehinode.Json.{Double, Fields, end, merge}
use vehinode.Models.{
  Key, Instant, Device, Telemetry, VehicleState, Trigger, TriggerType, Hook, HookExecution,
  ExecutionStatus, Job, JobType, JobStatus, Db,
}

pub record Position : Type 0 where
  pub latitude : Double
  pub longitude : Double
  pub altitude : Option Double
  pub speed : Option Double
  pub heading : Option Double
  pub accuracy : Option Double

pub record TelemetrySample : Type 0 where
  pub id : Key
  pub sequence : ℕ
  pub recorded_at : Instant
  pub position : Option Position
  pub metrics : Fields
  pub device : Fields

pub record TelemetryBatch : Type 0 where
  pub boot_id : Key
  pub samples : List TelemetrySample

abbrev pub sample_ids : List TelemetrySample → List Key
sample_ids samples = map (λ (s : TelemetrySample). s.id) samples

-- What the validator of a batch asks for.
abbrev pub unique_sample_ids : TelemetryBatch → Bool
unique_sample_ids batch = distinct (sample_ids batch.samples)

-- `field(position) if position else None`
abbrev pub of_position : (Position → Option Double) → Option Position → Option Double
of_position field none = none
of_position field (some p) = field p

-- The default of `received_at` is the clock.
unfoldable pub telemetry_model : Device → Key → Instant → TelemetrySample → Telemetry
telemetry_model device boot_id now sample = record {
  id = sample.id;
  vehicle_id = device.vehicle_id;
  device_id = device.id;
  boot_id = boot_id;
  sequence = sample.sequence;
  recorded_at = sample.recorded_at;
  received_at = now;
  latitude = of_position (λ p. some p.latitude) sample.position;
  longitude = of_position (λ p. some p.longitude) sample.position;
  altitude = of_position (λ p. p.altitude) sample.position;
  gps_speed = of_position (λ p. p.speed) sample.position;
  heading = of_position (λ p. p.heading) sample.position;
  accuracy = of_position (λ p. p.accuracy) sample.position;
  metrics = sample.metrics;
  device_data = sample.device;
}

-- The new row of the current state, over the metrics and the device data of the previous one.
unfoldable pub merged_state : Fields → Fields → Telemetry → VehicleState
merged_state previous_metrics previous_device t = record {
  vehicle_id = t.vehicle_id;
  telemetry_id = t.id;
  updated_at = t.recorded_at;
  latitude = t.latitude;
  longitude = t.longitude;
  altitude = t.altitude;
  gps_speed = t.gps_speed;
  heading = t.heading;
  accuracy = t.accuracy;
  latest_metrics = merge previous_metrics t.metrics;
  device_state = merge previous_device t.device_data;
}

unfoldable pub update_current_state : Telemetry → List VehicleState → List VehicleState
update_current_state t states =
    elim (find (λ (s : VehicleState). s.vehicle_id == t.vehicle_id) states) [
      | none ↦ states ++ merged_state end end t ∷ []
      | some state ↦
          if ltb t.recorded_at state.updated_at
          then states
          else update_where (λ (s : VehicleState). s.vehicle_id == t.vehicle_id)
              (λ s. record (merged_state s.latest_metrics s.device_state t) {
                vehicle_id = s.vehicle_id;
              })
              states
    ]

pub record IngestionResult : Type 0 where
  pub accepted : List Key
  pub duplicates : List Key

-- The variables of the loop of `ingest_batch`, the database among them.
pub record Progress : Type 0 where
  pub result : IngestionResult
  pub stored : List Telemetry
  pub db : Db

-- A pass of the loop. The savepoint raises IntegrityError on a primary key that is taken.
unfoldable pub store_sample : Telemetry → Progress → Progress
store_sample t p =
    if any (λ (row : Telemetry). row.id == t.id) p.db.telemetry
    then record p { result = record p.result { duplicates = p.result.duplicates ++ t.id ∷ [] } }
    else record {
      result = record p.result { accepted = p.result.accepted ++ t.id ∷ [] };
      stored = p.stored ++ t ∷ [];
      db = record p.db {
        telemetry = p.db.telemetry ++ t ∷ [];
        states = update_current_state t p.db.states;
      };
    }

unfoldable pub store_samples : List Telemetry → Progress → Progress
store_samples [] p = p
store_samples (t ∷ ts) p = store_samples ts (store_sample t p)

-- `stored.sort(key=lambda row: (row.recorded_at, row.sequence))`
abbrev pub sort_rows : List Telemetry → List Telemetry
sort_rows rows =
    order_by (λ (t : Telemetry). t.recorded_at) (order_by (λ (t : Telemetry). t.sequence) rows)

abbrev pub seen : Device → Instant → Db → Db
seen device now db = record db {
  devices =
      update_where (λ (d : Device). d.id == device.id) (λ d. record d { last_seen_at = some now })
        db.devices;
}

abbrev pub batch_models : Device → Instant → TelemetryBatch → List Telemetry
batch_models device now batch = map (telemetry_model device batch.boot_id now) batch.samples

abbrev pub no_progress : Db → Progress
no_progress db = record { result = record { accepted = []; duplicates = [] }; stored = []; db = db }

-- The loop of `ingest_batch`.
abbrev pub stored_batch : Db → Device → TelemetryBatch → Instant → Progress
stored_batch db device batch now = store_samples (batch_models device now batch) (no_progress db)

unfoldable pub ingest_batch : Db → Device → TelemetryBatch → Instant → NewIds → IngestionResult × Db
ingest_batch db device batch now new =
    let p = stored_batch db device batch now in
    (p.result, seen device now (enqueue_hooks new now (sort_rows p.stored) p.db))

pub record BatchResponse : Type 0 where
  pub accepted : List Key
  pub duplicates : List Key
  pub config_version : ℕ

unfoldable pub telemetry_batch :
    Db → Device → TelemetryBatch → Instant → NewIds → BatchResponse × Db
telemetry_batch db device batch now new =
    let (result, db') = ingest_batch db device batch now new in
    (
      record {
        accepted = result.accepted;
        duplicates = result.duplicates;
        config_version = device.config_version;
      },
      db',
    )
