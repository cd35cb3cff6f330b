-- ===== src/Vehicles/Responses.antt =====
-- The answers of backend/app/vehicles/schemas.py, and `serialize_vehicle` of services.py.
use vehinode.Prelude.{ℕ, ◌+◌, String, Bool, Option, none, some, ◌==◌, leb}
use vehinode.Prelude.Table.{find}
use vehinode.Json.{Double, Fields}
use vehinode.Models.{
  Key, Instant, seconds, Vehicle, VehiclePhoto, VehicleState, VehicleAccessLevel, Db,
}

pub record PositionResponse : Type 0 where
  pub latitude : Double
  pub longitude : Double
  pub altitude : Option Double
  pub speed : Option Double
  pub heading : Option Double
  pub accuracy : Option Double

pub record StateResponse : Type 0 where
  pub updated_at : Instant
  pub online : Bool
  pub position : Option PositionResponse
  pub metrics : Fields
  pub device : Fields

pub record VehicleResponse : Type 0 where
  pub vehicle : Vehicle
  pub access : VehicleAccessLevel
  pub photo_url : Option String
  pub state : Option StateResponse

abbrev pub position_of : VehicleState → Option PositionResponse
position_of state = elim state.latitude [
  | none ↦ none
  | some latitude ↦ elim state.longitude [
    | none ↦ none
    | some longitude ↦ some (record {
      latitude = latitude;
      longitude = longitude;
      altitude = state.altitude;
      speed = state.gps_speed;
      heading = state.heading;
      accuracy = state.accuracy;
    })
  ]
]

-- A state is online if it was updated within the threshold, in seconds.
abbrev pub state_of : ℕ → Instant → Option VehicleState → Option StateResponse
state_of threshold now none = none
state_of threshold now (some state) = some (record {
  updated_at = state.updated_at;
  online = leb now (state.updated_at + seconds threshold);
  position = position_of state;
  metrics = state.latest_metrics;
  device = state.device_state;
})

abbrev pub url_of : (Key → String → String) → Option VehiclePhoto → Option String
url_of photo_url none = none
url_of photo_url (some photo) = some (photo_url photo.vehicle_id photo.etag)

unfoldable pub serialize_vehicle :
    (Key → String → String) → ℕ → Instant → Db → Vehicle → VehicleAccessLevel → VehicleResponse
serialize_vehicle photo_url threshold now db vehicle level = record {
  vehicle = vehicle;
  access = level;
  photo_url = url_of photo_url (find (λ (p : VehiclePhoto). p.vehicle_id == vehicle.id) db.photos);
  state =
      state_of threshold now (find (λ (s : VehicleState). s.vehicle_id == vehicle.id) db.states);
}
