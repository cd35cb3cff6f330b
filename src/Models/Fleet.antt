-- ===== src/Models/Fleet.antt =====
-- backend/app/vehicles/models.py, backend/app/devices/models.py, backend/app/telemetry/models.py,
-- backend/app/vehicle_state/models.py and backend/app/vehicle_profiles/models.py.
use vehinode.Prelude.{ℕ, String, Option}
use vehinode.Json.{Double, Fields}
use vehinode.Models.Types.{Key, Instant}

pub record Vehicle : Type 0 where
  pub id : Key
  pub created_by : Option Key
  pub name : String
  pub manufacturer : String
  pub model : String
  pub year : Option ℕ
  pub vin : Option String
  pub battery_nominal_capacity_kwh : Option Double
  pub vehicle_profile : Option Key
  pub timezone : String
  pub display_preferences : Fields
  pub color : String
  pub icon : String
  pub created_at : Instant

pub record Device : Type 0 where
  pub id : Key
  pub vehicle_id : Key
  pub name : String
  pub credential_hash : String
  pub credential_version : ℕ
  pub agent_version : Option String
  pub hostname : Option String
  pub hardware : Fields
  pub last_seen_at : Option Instant
  pub last_config_sync_at : Option Instant
  pub config_version : ℕ
  pub sampling_seconds : ℕ
  pub upload_seconds : ℕ
  pub parked_sampling_seconds : ℕ
  pub parked_upload_seconds : ℕ
  pub revoked_at : Option Instant
  pub created_at : Instant

pub record EnrollmentToken : Type 0 where
  pub id : Key
  pub token_hash : String
  pub vehicle_id : Key
  pub intended_name : String
  pub created_at : Instant
  pub expires_at : Instant
  pub used_at : Option Instant
  pub sampling_seconds : ℕ
  pub upload_seconds : ℕ
  pub parked_sampling_seconds : ℕ
  pub parked_upload_seconds : ℕ

pub record Telemetry : Type 0 where
  pub id : Key
  pub vehicle_id : Key
  pub device_id : Key
  pub boot_id : Key
  pub sequence : ℕ
  pub recorded_at : Instant
  pub received_at : Instant
  pub latitude : Option Double
  pub longitude : Option Double
  pub altitude : Option Double
  pub gps_speed : Option Double
  pub heading : Option Double
  pub accuracy : Option Double
  pub metrics : Fields
  pub device_data : Fields

pub record VehicleState : Type 0 where
  pub vehicle_id : Key
  pub telemetry_id : Key
  pub updated_at : Instant
  pub latitude : Option Double
  pub longitude : Option Double
  pub altitude : Option Double
  pub gps_speed : Option Double
  pub heading : Option Double
  pub accuracy : Option Double
  pub latest_metrics : Fields
  pub device_state : Fields

pub record VehicleProfile : Type 0 where
  pub id : Key
  pub created_by : Option Key
  pub name : String
  pub description : String
  pub definition : Fields
  pub created_at : Instant
  pub updated_at : Instant
