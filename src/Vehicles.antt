-- ===== src/Vehicles.antt =====
-- backend/app/vehicles: services.py and routes.py, with the responses of schemas.py. The files of
-- photos are in `Upload`; `photo_url` writes the address of one.
mod Delete
mod Responses
mod Listing
mod Removal
mod Upload
mod Files
mod Stored
mod UploadTests
mod Tests
unfoldable pub use Delete.*
unfoldable pub use Responses.*
use vehinode.Prelude.{
  ℕ, ◌+◌, String, Bool, true, false, not, Option, none, some, List, [], ◌∷◌, ◌++◌, map, elem, ◌==◌,
  is_some, leb, if◌then◌else◌, Result, ok, err, HttpError, http, ◌>>=◌, ◌>>◌, raise_if, raise_as,
}
use vehinode.Prelude.Table.{find, select, order_by, update_where, delete_where}
use vehinode.Json.{Double, Fields, end}
use vehinode.Models.{
  Key, Instant, seconds, User, Vehicle, VehiclePhoto, VehicleState, VehicleAccessLevel, view,
  operate, Db,
}
use vehinode.Access.{
  is_admin, get_vehicle, access_level, visible_vehicle_ids, AuthorizedVehicle, authorize_vehicle,
  require_admin,
}
use vehinode.Profiles.{profile_definition, assign_profile}
use vehinode.Devices.{reset_vehicle_telemetry}

pub record VehicleCreate : Type 0 where
  pub name : String
  pub manufacturer : String
  pub model : String
  pub year : Option ℕ
  pub vin : Option String
  pub battery_nominal_capacity_kwh : Option Double
  pub vehicle_profile : Option Key
  pub timezone : String
  pub color : String

unfoldable pub create_vehicle : Db → User → VehicleCreate → Key → Instant → Vehicle × Db
create_vehicle db creator request id now =
    let vehicle : Vehicle = record {
      id = id;
      created_by = some creator.id;
      name = request.name;
      manufacturer = request.manufacturer;
      model = request.model;
      year = request.year;
      vin = request.vin;
      battery_nominal_capacity_kwh = request.battery_nominal_capacity_kwh;
      vehicle_profile = request.vehicle_profile;
      timezone = request.timezone;
      display_preferences = end;
      color = request.color;
      icon = "car";
      created_at = now;
    } in
    (vehicle, record db { vehicles = db.vehicles ++ vehicle ∷ [] })

unfoldable pub list_vehicles : Db → User → List Vehicle
list_vehicles db user =
    let visible = visible_vehicle_ids db user in
    order_by (λ (v : Vehicle). v.created_at)
      (select (λ (v : Vehicle). elem v.id visible) db.vehicles)

abbrev pub replaced_photo : VehiclePhoto → VehiclePhoto → VehiclePhoto
replaced_photo photo p = record p {
  storage_key = photo.storage_key;
  media_type = photo.media_type;
  size_bytes = photo.size_bytes;
  etag = photo.etag;
}

unfoldable pub replace_vehicle_photo : Db → VehiclePhoto → Db
replace_vehicle_photo db photo =
    let is_photo = λ (p : VehiclePhoto). p.vehicle_id == photo.vehicle_id in
    record db {
      photos =
          if is_some (find is_photo db.photos)
          then update_where is_photo (replaced_photo photo) db.photos
          else db.photos ++ photo ∷ [];
    }

unfoldable pub delete_vehicle_photo : Db → Key → Bool × Db
delete_vehicle_photo db vehicle_id =
    let is_photo = λ (p : VehiclePhoto). p.vehicle_id == vehicle_id in
    if is_some (find is_photo db.photos)
    then (true, record db { photos = delete_where is_photo db.photos })
    else (false, db)

abbrev pub or_operate : Option VehicleAccessLevel → VehicleAccessLevel
or_operate none = operate
or_operate (some level) = level

unfoldable pub vehicles : (Key → String → String) → ℕ → Instant → Db → User → List VehicleResponse
unfolding list_vehicles serialize_vehicle
vehicles photo_url threshold now db user =
    map
      (λ (v : Vehicle).
        serialize_vehicle photo_url threshold now db v (or_operate (access_level db user v.id)))
      (list_vehicles db user)

-- A profile that is named has to exist.
abbrev pub available : Result String (Option Fields) → Option Key → Result HttpError (Unit {0})
available definition none = ok tt
available (err message) (some k) = http 500 message
available (ok none) (some k) = http 422 "vehicle profile is not available"
available (ok (some definition)) (some k) = ok tt

unfoldable pub add_vehicle :
    (Key → Option Fields)
    → Db
    → User
    → VehicleCreate
    → Key
    → Instant
    → Result HttpError (Vehicle × Db)
unfolding create_vehicle
add_vehicle built_ins db user request id now = do
  admin ← require_admin user
  available (profile_definition built_ins db request.vehicle_profile) request.vehicle_profile
  ok (create_vehicle db admin request id now)

unfoldable pub remove_vehicle :
    (Key → String) → Db → User → Key → Result HttpError (Option String × Db)
remove_vehicle id_text db user vehicle_id = do
  authorized ← authorize_vehicle db user vehicle_id operate
  raise_if (not (is_admin user)) (record { status_code = 403; detail = "permission denied" })
  ok (delete_vehicle id_text db authorized.vehicle)

unfoldable pub reset_each : Db → List Vehicle → Db
reset_each db [] = db
reset_each db (v ∷ vs) = reset_each (reset_vehicle_telemetry db v.id).1 vs

unfoldable pub clear_all_telemetry : Db → User → Result HttpError Db
unfolding reset_each list_vehicles
clear_all_telemetry db user = do
  admin ← require_admin user
  ok (reset_each db (list_vehicles db admin))

unfoldable pub clear_vehicle_telemetry : Db → User → Key → Result HttpError Db
clear_vehicle_telemetry db user vehicle_id = do
  authorized ← authorize_vehicle db user vehicle_id operate
  ok (reset_vehicle_telemetry db authorized.vehicle.id).1

unfoldable pub select_vehicle_profile :
    (Key → Option Fields) → Db → User → Key → Option Key → Result HttpError Db
select_vehicle_profile built_ins db user vehicle_id profile_id = do
  authorized ← authorize_vehicle db user vehicle_id operate
  available (profile_definition built_ins db profile_id) profile_id
  ok (assign_profile db authorized.vehicle profile_id)

unfoldable pub vehicle_response :
    (Key → String → String) → ℕ → Instant → Db → User → Key → Result HttpError VehicleResponse
unfolding serialize_vehicle
vehicle_response photo_url threshold now db user vehicle_id = do
  authorized ← authorize_vehicle db user vehicle_id view
  ok (serialize_vehicle photo_url threshold now db authorized.vehicle authorized.level)

abbrev pub removed_photo : Bool × Db → Result HttpError Db
removed_photo (false, db) = http 404 "vehicle photo not found"
removed_photo (true, db) = ok db

unfoldable pub remove_vehicle_photo : Db → User → Key → Result HttpError (Option String × Db)
unfolding delete_vehicle_photo
remove_vehicle_photo db user vehicle_id = do
  authorized ← authorize_vehicle db user vehicle_id operate
  let k = authorized.vehicle.id
  let storage_key = storage_key_of (find (λ (p : VehiclePhoto). p.vehicle_id == k) db.photos)
  left ← removed_photo (delete_vehicle_photo db k)
  ok (storage_key, left)
