-- ===== src/Access/Tests.antt =====
-- The theorems on access at the sample data.
use vehinode.Prelude.{◌≡◌, refl, true, false, ◌==◌, ◌++◌, some, List, [], ◌∷◌, ok, err, http}
use vehinode.Prelude.Table.{find, any, delete_where, order_by}
use vehinode.Models.{view, operate, Db, DefaultAccess, User, VehicleAccessGrant}
use vehinode.Json.{get}
use vehinode.Access.{
  VehicleGrantWrite, VehicleGrantResponse, access_level, authorize_vehicle, replace_vehicle_grants,
  list_vehicle_grants, replace_grants, apply_default_access, get_default_access, grant_level,
  is_admin, store_setting, requested_level,
}
use vehinode.Access.Policy.{authorize_vehicle_lem}
use vehinode.Access.Grants.{access_level-replace, replace_vehicle_grants_lem}
use vehinode.Access.Defaults.{access_level-apply_default}
use vehinode.Fixtures.{garage, carol}

carol_level : access_level garage carol 10 ≡ some view
unfolding access_level is_admin get find grant_level
carol_level = refl

-- Carol holds a view grant on vehicle 10 and asks to operate it.
authorize_vehicle_example : authorize_vehicle garage carol 10 operate ≡ http 403 "permission denied"
authorize_vehicle_example = (authorize_vehicle_lem garage carol 10 operate).2.1 (carol_level, refl)

abbrev written : List VehicleGrantWrite
written = record { user_id = 3; level = operate } ∷ []

abbrev answer : List VehicleGrantResponse
answer =
    record { user_id = 3; email = "someone@example.org"; display_name = "Someone"; level = operate }
    ∷ []

abbrev shared : Db
unfolding replace_grants delete_where
shared = record garage { grants = replace_grants 11 written garage.grants }

written_stored : replace_vehicle_grants garage 11 written ≡ ok (answer, shared)
unfolding replace_vehicle_grants list_vehicle_grants replace_grants find delete_where order_by
written_stored = refl

access_level-replace_example : access_level shared carol 11 ≡ some operate
unfolding is_admin get find
access_level-replace_example =
    access_level-replace garage 11 written answer shared written_stored carol 11

-- A request that names Carol twice.
replace_vehicle_grants_example :
    replace_vehicle_grants garage 11
      (record { user_id = 3; level = view } ∷ record { user_id = 3; level = operate } ∷ [])
    ≡ err "each user may have only one vehicle grant"
replace_vehicle_grants_example =
    (replace_vehicle_grants_lem garage 11
        (record { user_id = 3; level = view } ∷ record { user_id = 3; level = operate } ∷ [])).1.1
      refl

abbrev template : DefaultAccess
template = record {
  profiles_create = true;
  grants =
      record { vehicle_id = 11; level = operate } ∷ record { vehicle_id = 99; level = view } ∷ [];
}

-- An account that was just added.
abbrev dave : User
dave = record carol { id = 4 }

abbrev configured : Db
unfolding store_setting find
configured = record garage {
  users = garage.users ++ dave ∷ [];
  settings = store_setting template garage.settings;
}

no_grant_yet : any (λ (g : VehicleAccessGrant). g.user_id == dave.id) configured.grants ≡ false
unfolding any configured
no_grant_yet = refl

access_level-apply_default_example :
    access_level (apply_default_access configured dave) dave 11 ≡ some operate
unfolding any access_level is_admin get find grant_level get_default_access requested_level
    store_setting
access_level-apply_default_example = access_level-apply_default configured dave dave 11 no_grant_yet
