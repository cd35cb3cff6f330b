-- ===== src/Access/Policy.antt =====
-- Who passes the checks of backend/app/access/dependencies.py.
use vehinode.Prelude.{◌≡◌, refl, ◌↔◌, ◌⊎◌, true, some, none, arith, Option, if◌then◌else◌, ok, http}
use vehinode.Models.{Key, User, Vehicle, VehicleAccessLevel, view, operate, Db}
use vehinode.Access.{
  AuthorizedVehicle, is_admin, get_vehicle, grant_level, access_level, level_allows,
  authorize_vehicle,
}

-- What the policy means to allow, without the order in which the code tests it.
abbrev pub MayUse : Db → User → Key → VehicleAccessLevel → Type 0
MayUse db user vehicle_id required =
    (is_admin user ≡ true)
    ⊎ (grant_level db.grants user.id vehicle_id ≡ some operate)
    ⊎ ((required ≡ view) × (grant_level db.grants user.id vehicle_id ≡ some view))

-- The level of a grant, or `operate` where there is none to read.
abbrev granted : Option VehicleAccessLevel → VehicleAccessLevel
granted none = operate
granted (some level) = level

module _ (db : Db) (user : User) (vehicle_id : Key) (required : VehicleAccessLevel) where
  pub authorize-MayUse :
      (a : AuthorizedVehicle)
      → authorize_vehicle db user vehicle_id required ≡ ok a
      → (get_vehicle db vehicle_id ≡ some a.vehicle) × MayUse db user vehicle_id required
  unfolding authorize_vehicle access_level level_allows
  authorize-MayUse a h = ground arith

  MayUse-authorize :
      (v : Vehicle)
      → get_vehicle db vehicle_id ≡ some v
      → MayUse db user vehicle_id required
      → (a : AuthorizedVehicle) × (authorize_vehicle db user vehicle_id required ≡ ok a)
        × (a.vehicle ≡ v)
        × (access_level db user vehicle_id ≡ some a.level)
  unfolding authorize_vehicle access_level level_allows
  MayUse-authorize v e may = (
    record {
      vehicle = v;
      level = if is_admin user then operate else granted (grant_level db.grants user.id vehicle_id);
    },
    ground arith,
    refl,
    ground arith,
  )

  authorize_not_found :
      (authorize_vehicle db user vehicle_id required ≡ http 404 "vehicle not found")
      ↔ (access_level db user vehicle_id ≡ none)
  unfolding authorize_vehicle access_level level_allows
  authorize_not_found = (λ h. ground arith, λ h. ground arith)

  authorize_forbidden :
      (authorize_vehicle db user vehicle_id required ≡ http 403 "permission denied")
      ↔ ((access_level db user vehicle_id ≡ some view) × (required ≡ operate))
  unfolding authorize_vehicle access_level level_allows
  authorize_forbidden = (λ h. ground arith, λ h. ground arith)

  -- A request for a vehicle goes through exactly when the vehicle exists and the user is an
  -- administrator, holds an operate grant on it, or holds a view grant and asks to view; it is
  -- answered 404 exactly when the user has no level on the vehicle at all, and 403 exactly when the
  -- user may view it and asked to operate it.
  pub authorize_vehicle_lem :
      (((a : AuthorizedVehicle) × (authorize_vehicle db user vehicle_id required ≡ ok a)) ↔ (
        (v : Vehicle) × (get_vehicle db vehicle_id ≡ some v) × MayUse db user vehicle_id required))
      × ((authorize_vehicle db user vehicle_id required ≡ http 404 "vehicle not found")
          ↔ (access_level db user vehicle_id ≡ none))
      × ((authorize_vehicle db user vehicle_id required ≡ http 403 "permission denied")
          ↔ ((access_level db user vehicle_id ≡ some view) × (required ≡ operate)))
  authorize_vehicle_lem = (
    (
      λ (a, h). let (e, may) = authorize-MayUse a h in (a.vehicle, e, may),
      λ (v, e, may). let (a, h, _, _) = MayUse-authorize v e may in (a, h),
    ),
    authorize_not_found,
    authorize_forbidden,
  )
