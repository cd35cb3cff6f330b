-- ===== src/Access.antt =====
-- backend/app/access: constants.py, services.py, dependencies.py and routes.py. Administrators
-- reach every vehicle; other users reach the vehicles that a grant names, at its level.
pub mod Policy
pub mod Visibility
pub mod Grants
pub mod Defaults
mod Tests
use mathlib.Core.Option
use vehinode.Prelude.{
  ℕ, String, Bool, true, false, not, ◌&&◌, ◌||◌, Option, none, some, List, [], ◌∷◌, ◌++◌, map, elem,
  length, distinct, is_none, ◌==◌, str_eq, if◌then◌else◌, Result, ok, err, HttpError, http, ◌>>=◌,
  ◌>>◌, raise_if, raise_as,
}
use vehinode.Prelude.Table.{find, select, delete_where, update_where, any, order_by}
use vehinode.Json.{truthy, get}
use vehinode.Models.{
  Key, User, Vehicle, VehicleAccessLevel, view, operate, VehicleAccessGrant, DefaultVehicleGrant,
  DefaultAccess, AppSetting, Db,
}

abbrev pub system_admin : String
system_admin = "system.admin"

abbrev pub is_operate : VehicleAccessLevel → Bool
is_operate view = false
is_operate operate = true

unfoldable pub level_allows : VehicleAccessLevel → VehicleAccessLevel → Bool
level_allows actual required = is_operate actual || not (is_operate required)

unfoldable pub is_admin : User → Bool
is_admin user = elim (get system_admin user.permissions) [ none ↦ false | some v ↦ truthy v ]

-- `db.get(Vehicle, vehicle_id)` and `db.get(User, user_id)`
abbrev pub get_vehicle : Db → Key → Option Vehicle
get_vehicle db vehicle_id = find (λ v. v.id == vehicle_id) db.vehicles

abbrev pub get_user : Db → Key → Option User
get_user db user_id = find (λ u. u.id == user_id) db.users

-- The set as a list, whose order means nothing.
unfoldable pub visible_vehicle_ids : Db → User → List Key
visible_vehicle_ids db user =
    if is_admin user
    then map (λ (v : Vehicle). v.id) db.vehicles
    else map (λ (g : VehicleAccessGrant). g.vehicle_id)
        (select (λ g. g.user_id == user.id) db.grants)

-- The level that the grants table holds for a user and a vehicle.
unfoldable pub grant_level : List VehicleAccessGrant → Key → Key → Option VehicleAccessLevel
grant_level grants user_id vehicle_id =
    Option.map (λ (g : VehicleAccessGrant). g.level)
      (find (λ g. g.user_id == user_id && g.vehicle_id == vehicle_id) grants)

unfoldable pub access_level : Db → User → Key → Option VehicleAccessLevel
access_level db user vehicle_id =
    if is_none (get_vehicle db vehicle_id)
    then none
    else if is_admin user
    then some operate
    else grant_level db.grants user.id vehicle_id

pub record AuthorizedVehicle : Type 0 where
  pub vehicle : Vehicle
  pub level : VehicleAccessLevel

authorize_level :
    Option Vehicle
    → Option VehicleAccessLevel
    → VehicleAccessLevel
    → Result HttpError AuthorizedVehicle
authorize_level none level required = http 404 "vehicle not found"
authorize_level (some vehicle) none required = http 404 "vehicle not found"
authorize_level (some vehicle) (some level) required =
    if not (level_allows level required)
    then http 403 "permission denied"
    else ok (record { vehicle = vehicle; level = level })

-- `_authorize_vehicle`
unfoldable pub authorize_vehicle :
    Db → User → Key → VehicleAccessLevel → Result HttpError AuthorizedVehicle
unfolding authorize_level
authorize_vehicle db user vehicle_id required =
    authorize_level (get_vehicle db vehicle_id) (access_level db user vehicle_id) required

-- `require_admin`, and `require_admin_write` behind its check of the CSRF token
unfoldable pub require_admin : User → Result HttpError User
require_admin user = if not (is_admin user) then http 403 "permission denied" else ok user

pub record VehicleGrantWrite : Type 0 where
  pub user_id : Key
  pub level : VehicleAccessLevel

pub record VehicleGrantResponse : Type 0 where
  pub user_id : Key
  pub email : String
  pub display_name : String
  pub level : VehicleAccessLevel

-- The users of the join, in the order of the query.
joined : Key → List VehicleAccessGrant → List User → List VehicleGrantResponse
joined vehicle_id grants [] = []
joined vehicle_id grants (u ∷ us) =
    let rest = joined vehicle_id grants us in
    elim (find (λ (g : VehicleAccessGrant). g.user_id == u.id && g.vehicle_id == vehicle_id)
      grants) [
        | none ↦ rest
        | some g ↦
            record {
              user_id = g.user_id;
              email = u.email;
              display_name = u.display_name;
              level = g.level;
            }
            ∷ rest
      ]

-- The key of the table admits one grant for a vehicle and a user, so each user joins one row.
unfoldable pub list_vehicle_grants : Db → Key → List VehicleGrantResponse
unfolding joined
list_vehicle_grants db vehicle_id =
    joined vehicle_id db.grants (order_by (λ (u : User). u.created_at) db.users)

-- `set(xs) == set(ys)`
abbrev pub subset : List Key → List Key → Bool
subset [] ys = true
subset (x ∷ xs) ys = elem x ys && subset xs ys

abbrev pub same_set : List Key → List Key → Bool
same_set xs ys = subset xs ys && subset ys xs

abbrev pub user_ids : List VehicleGrantWrite → List Key
user_ids [] = []
user_ids (g ∷ gs) = g.user_id ∷ user_ids gs

-- `select(User.id).where(User.id.in_(ids))`
abbrev pub existing_users : List User → List Key → List Key
existing_users [] ids = []
existing_users (u ∷ us) ids =
    let rest = existing_users us ids in if elem u.id ids then u.id ∷ rest else rest

abbrev pub new_grants : Key → List VehicleGrantWrite → List VehicleAccessGrant
new_grants vehicle_id [] = []
new_grants vehicle_id (g ∷ gs) =
    record { vehicle_id = vehicle_id; user_id = g.user_id; level = g.level }
    ∷ new_grants vehicle_id gs

unfoldable pub replace_grants :
    Key → List VehicleGrantWrite → List VehicleAccessGrant → List VehicleAccessGrant
replace_grants vehicle_id grants table =
    delete_where (λ g. g.vehicle_id == vehicle_id) table ++ new_grants vehicle_id grants

unfoldable pub replace_vehicle_grants :
    Db → Key → List VehicleGrantWrite → Result String (List VehicleGrantResponse × Db)
replace_vehicle_grants db vehicle_id grants = do
  raise_if (not (distinct (user_ids grants))) "each user may have only one vehicle grant"
  raise_if (not (same_set (existing_users db.users (user_ids grants)) (user_ids grants)))
      "vehicle grant references an unknown user"
  let db' = record db { grants = replace_grants vehicle_id grants db.grants }
  ok (list_vehicle_grants db' vehicle_id, db')

-- PUT /vehicles/{vehicle_id}/access: the database that is committed, with the response.
unfoldable pub update_vehicle_access :
    Db → User → Key → List VehicleGrantWrite → Result HttpError (List VehicleGrantResponse × Db)
update_vehicle_access db user vehicle_id grants = do
  admin ← require_admin user
  raise_if (is_none (get_vehicle db vehicle_id))
      (record { status_code = 404; detail = "vehicle not found" })
  raise_as 422 (replace_vehicle_grants db vehicle_id grants)

abbrev pub default_access_key : String
default_access_key = "default_access"

-- `db.get(AppSetting, DEFAULT_ACCESS_KEY)`
abbrev pub default_setting : List AppSetting → Option AppSetting
default_setting = find (λ s. str_eq s.key default_access_key)

unfoldable pub get_default_access : Db → DefaultAccess
get_default_access db = elim (default_setting db.settings) [
  | none ↦ record { profiles_create = false; grants = [] }
  | some s ↦ s.value
]

abbrev pub default_vehicle_ids : List DefaultVehicleGrant → List Key
default_vehicle_ids [] = []
default_vehicle_ids (g ∷ gs) = g.vehicle_id ∷ default_vehicle_ids gs

-- The row is assigned where there is one, and added where there is none.
unfoldable pub store_setting : DefaultAccess → List AppSetting → List AppSetting
store_setting value settings =
    if is_none (default_setting settings)
    then settings ++ record { key = default_access_key; value = value } ∷ []
    else update_where (λ s. str_eq s.key default_access_key) (λ s. record s { value = value })
        settings

unfoldable pub set_default_access : Db → DefaultAccess → Result String (DefaultAccess × Db)
set_default_access db value = do
  raise_if (not (distinct (default_vehicle_ids value.grants))) "each vehicle may appear only once"
  ok (value, record db { settings = store_setting value db.settings })

-- PUT /admin/default-access
unfoldable pub update_default_access :
    Db → User → DefaultAccess → Result HttpError (DefaultAccess × Db)
update_default_access db user value = do
  admin ← require_admin user
  raise_as 422 (set_default_access db value)

-- `requested[vehicle_id]`: a dictionary keeps the last value of a key.
unfoldable pub requested_level : List DefaultVehicleGrant → Key → Option VehicleAccessLevel
requested_level [] vehicle_id = none
requested_level (g ∷ gs) vehicle_id =
    let later = requested_level gs vehicle_id in
    if is_none later then (if g.vehicle_id == vehicle_id then some g.level else none) else later

-- One grant for each existing vehicle that the template names.
unfoldable pub default_grants :
    Key → List DefaultVehicleGrant → List Vehicle → List VehicleAccessGrant
default_grants user_id template [] = []
default_grants user_id template (v ∷ vs) =
    let rest = default_grants user_id template vs in
    elim (requested_level template v.id) [
      | none ↦ rest
      | some level ↦ record { vehicle_id = v.id; user_id = user_id; level = level } ∷ rest
    ]

-- The callers apply it to an account that they have just added, so that no grant names it; the primary
-- key of the grants would refuse a second one for a vehicle and a user.
unfoldable pub apply_default_access : Db → User → Db
apply_default_access db user =
    let template = get_default_access db in
    record db {
      users =
          update_where (λ u. u.id == user.id)
            (λ u. record u { can_create_profiles = template.profiles_create }) db.users;
      grants = db.grants ++ default_grants user.id template.grants db.vehicles;
    }
