-- ===== src/Vehicles/Tests.antt =====
-- The theorems on vehicles at sample databases.
use vehinode.Prelude.{◌≡◌, ◌↔◌, refl, true, ◌==◌, some, none, [], ◌∷◌, ok}
use vehinode.Prelude.Table.{any, find}
use vehinode.Json.{Json, truthy, Items, Fields, end, field, get}
use vehinode.Models.{Key, Vehicle, view, Db}
use vehinode.Access.{
  AuthorizedVehicle, authorize_vehicle, is_admin, get_vehicle, access_level, level_allows,
}
use vehinode.Access.Visibility.{GrantsRefer}
use vehinode.Vehicles.{list_vehicles, remove_vehicle, delete_vehicle}
use vehinode.Vehicles.Listing.{list_vehicles_lem}
use vehinode.Prelude.Table.Selection.{IsOrdered}
use vehinode.Prelude.{String}
use vehinode.Vehicles.Removal.{IsRemoved, remove_vehicle_effect}
use vehinode.Fixtures.{garage, workshop, vehicle, alice, carol}

-- What Carol sees of the garage.
refers : GrantsRefer garage.vehicles garage.grants
unfolding any
refers = (refl, tt)

list_vehicles_lem_example :
    ((any (λ (v : Vehicle). v.id == 10) (list_vehicles garage carol) ≡ true)
      ↔ ((a : AuthorizedVehicle) × (authorize_vehicle garage carol 10 view ≡ ok a)))
    × IsOrdered (λ (v : Vehicle). v.created_at) (list_vehicles garage carol)
list_vehicles_lem_example = list_vehicles_lem garage carol 10 refers

-- A vehicle with an agent, a reading and an event, which a dashboard shows.
abbrev id_text : Key → String
id_text k = "10"

abbrev widget : Json
widget = Json.obj (field "kind" (Json.str "map") (field "vehicle_id" (Json.str "10") end))

abbrev layout : Fields
layout = field "widgets" (Json.arr (Items.cons widget Items.nil)) end

abbrev shown : Db
shown = record workshop {
  dashboards =
      record {
        id = 70;
        owner_id = 3;
        name = "Home";
        is_default = true;
        layout = layout;
        created_at = 0;
      }
      ∷ [];
}

abbrev left : Db
left = (delete_vehicle id_text shown (vehicle 10)).1

removed : remove_vehicle id_text shown alice 10 ≡ ok (none, left)
unfolding remove_vehicle authorize_vehicle access_level level_allows find is_admin get truthy
    delete_vehicle
removed = refl

remove_vehicle_effect_example :
    (is_admin alice ≡ true)
    × ((v : Vehicle) × (get_vehicle shown 10 ≡ some v))
    × IsRemoved id_text 10 left
remove_vehicle_effect_example = remove_vehicle_effect id_text shown alice 10 none left removed
