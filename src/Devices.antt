-- ===== src/Devices.antt =====
-- backend/app/devices: the enrollment of agents by one-time tokens, their settings, their removal, and
-- the configuration that they fetch. Tokens are hashed by `hash_token`, an argument.
mod Enroll
mod Enrollment
pub mod Settings
mod Removal
mod Tests
pub use Enroll.{
  EnrollmentCreate, EnrollRequest, Cadence, DeviceConfig, EnrollResponse, EnrollmentFailure,
  enrollment_error, unexpected, find_token, is_usable, invalid_token, existing_vehicle, uncaught,
  enrollment_answer,
}
unfoldable pub use Enroll.{
  device_config, create_enrollment, usable_token, enrolled_device, enroll, enroll_device,
}
use vehinode.Prelude.{
  ℕ, ◌+◌, String, Bool, true, false, not, ◌&&◌, ◌||◌, Option, none, some, List, map, elem, length,
  ◌==◌, leb, is_some, is_none, if◌then◌else◌, Result, ok, err, HttpError, http, ◌>>=◌, ◌>>◌,
  raise_if,
}
use vehinode.Prelude.Table.{find, any, select, update_where, delete_where}
use vehinode.Json.{Fields}
use vehinode.Models.{
  Key, Instant, seconds, User, VehicleAccessLevel, operate, Device, Telemetry, VehicleState,
  Trigger, HookExecution, Db,
}
use vehinode.Access.{access_level, level_allows, get_vehicle, visible_vehicle_ids}

pub record DeviceSettings : Type 0 where
  pub name : String
  pub sampling_seconds : ℕ
  pub upload_seconds : ℕ
  pub parked_sampling_seconds : ℕ
  pub parked_upload_seconds : ℕ

abbrev pub cadence_changed : Device → DeviceSettings → Bool
cadence_changed device settings =
    not (device.sampling_seconds == settings.sampling_seconds)
    || not (device.upload_seconds == settings.upload_seconds)
    || not (device.parked_sampling_seconds == settings.parked_sampling_seconds)
    || not (device.parked_upload_seconds == settings.parked_upload_seconds)

unfoldable pub update_device : Device → DeviceSettings → Device
update_device device settings = record device {
  name = settings.name;
  sampling_seconds = settings.sampling_seconds;
  upload_seconds = settings.upload_seconds;
  parked_sampling_seconds = settings.parked_sampling_seconds;
  parked_upload_seconds = settings.parked_upload_seconds;
  config_version =
      if cadence_changed device settings then device.config_version + 1 else device.config_version;
}

abbrev pub get_device : Db → Key → Option Device
get_device db device_id = find (λ (d : Device). d.id == device_id) db.devices

abbrev pub change_device : Key → (Device → Device) → Db → Db
change_device k f db = record db { devices = update_where (λ (d : Device). d.id == k) f db.devices }

authorize_device : Device → Option VehicleAccessLevel → VehicleAccessLevel → Result HttpError Device
authorize_device device none required = http 404 "device not found"
authorize_device device (some level) required =
    if not (level_allows level required) then http 403 "permission denied" else ok device

unfoldable pub authorized_device : Db → User → Key → VehicleAccessLevel → Result HttpError Device
unfolding authorize_device
authorized_device db user device_id required = elim (get_device db device_id) [
  | none ↦ http 404 "device not found"
  | some device ↦ authorize_device device (access_level db user device.vehicle_id) required
]

-- `online` of `_device_response`, in microseconds.
unfoldable pub is_online : ℕ → Instant → Device → Bool
is_online threshold moment device = elim device.last_seen_at [
  | none ↦ false
  | some seen ↦ is_none device.revoked_at && leb moment (seen + seconds threshold)
]

unfoldable pub list_devices : Db → User → List Device
list_devices db user =
    let visible = visible_vehicle_ids db user in
    select (λ (d : Device). elem d.vehicle_id visible) db.devices

unfoldable pub edit_device : Db → User → Key → DeviceSettings → Result HttpError (Device × Db)
edit_device db user device_id settings = do
  device ← authorized_device db user device_id operate
  ok (update_device device settings, change_device device.id (λ d. update_device d settings) db)

-- The rows of telemetry that a statement deletes, and what goes with them by the foreign keys:
-- current states and triggers, the executions of the triggers, and the references of others.
abbrev pub is_deleted : (Telemetry → Bool) → List Telemetry → Key → Bool
is_deleted q rows k = any (λ (t : Telemetry). t.id == k && q t) rows

abbrev pub refers : (Key → Bool) → Option Key → Bool
refers deleted none = false
refers deleted (some k) = deleted k

abbrev pub forget : (Key → Bool) → Option Key → Option Key
forget deleted none = none
forget deleted (some k) = if deleted k then none else some k

abbrev pub is_trigger_deleted : (Key → Bool) → List Trigger → Key → Bool
is_trigger_deleted deleted triggers k =
    any (λ (t : Trigger). t.id == k && refers deleted t.telemetry_id) triggers

unfoldable pub delete_telemetry : (Telemetry → Bool) → Db → Db
delete_telemetry q db =
    let deleted = is_deleted q db.telemetry in
    record db {
      telemetry = delete_where q db.telemetry;
      states = delete_where (λ (s : VehicleState). deleted s.telemetry_id) db.states;
      triggers = delete_where (λ (t : Trigger). refers deleted t.telemetry_id) db.triggers;
      executions =
          map (λ (e : HookExecution). record e { telemetry_id = forget deleted e.telemetry_id })
            (delete_where
              (λ (e : HookExecution). is_trigger_deleted deleted db.triggers e.trigger_id)
              db.executions);
    }

unfoldable pub delete_device : Db → Device → Db
delete_device db device =
    let db' = delete_telemetry (λ t. t.device_id == device.id) db in
    record db' {
      devices = delete_where (λ (d : Device). d.id == device.id) db'.devices;
      triggers =
          map (λ (t : Trigger). record t { device_id = forget (λ k. k == device.id) t.device_id })
            db'.triggers;
    }

unfoldable pub remove_device : Db → User → Key → Result HttpError Db
remove_device db user device_id = do
  device ← authorized_device db user device_id operate
  ok (delete_device db device)

-- The number of rows is `rowcount` of the first statement.
unfoldable pub reset_vehicle_telemetry : Db → Key → ℕ × Db
reset_vehicle_telemetry db vehicle_id =
    let db' = delete_telemetry (λ t. t.vehicle_id == vehicle_id) db in
    (
      length (select (λ (t : Telemetry). t.vehicle_id == vehicle_id) db.telemetry),
      record db' {
        states = delete_where (λ (s : VehicleState). s.vehicle_id == vehicle_id) db'.states;
      },
    )

unfoldable pub revoke_device : Db → User → Key → Instant → Result HttpError Db
revoke_device db user device_id now = do
  device ← authorized_device db user device_id operate
  ok (change_device device.id (λ d. record d { revoked_at = some now }) db)

unfoldable pub rotate_credential : (String → String) → String → Device → Device
rotate_credential hash_token credential device = record device {
  credential_hash = hash_token credential;
  credential_version = device.credential_version + 1;
}

pub record RotateCredentialResponse : Type 0 where
  pub credential : String
  pub credential_version : ℕ

unfoldable pub rotate_device :
    (String → String) → Db → User → Key → String → Result HttpError (RotateCredentialResponse × Db)
rotate_device hash_token db user device_id credential = do
  device ← authorized_device db user device_id operate
  raise_if (is_some device.revoked_at)
      (record { status_code = 409; detail = "revoked device cannot rotate credentials" })
  ok (
    record {
      credential = credential;
      credential_version = (rotate_credential hash_token credential device).credential_version;
    },
    change_device device.id (rotate_credential hash_token credential) db,
  )

-- The time of the fetch is committed before the answer is built.
unfoldable pub get_config :
    (Key → Option Fields) → Db → Device → Instant → Result HttpError DeviceConfig × Db
get_config built_ins db device now = elim (get_vehicle db device.vehicle_id) [
  | none ↦ (http 404 "vehicle not found", db)
  | some vehicle ↦
      let db' = change_device device.id (λ d. record d { last_config_sync_at = some now }) db in
      (enrollment_answer (uncaught (device_config built_ins db' device vehicle)), db')
]
