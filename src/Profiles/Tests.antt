-- ===== src/Profiles/Tests.antt =====
-- The theorems on profiles at the sample data.
use vehinode.Prelude.{◌≡◌, ◌⊎◌, refl, Option, some, none, [], ◌∷◌, ◌+◌, ok}
use vehinode.Prelude.Table.{find}
use vehinode.Json.{arr, obj, str, nil, cons, Fields, end, field, get}
use vehinode.Models.{Key, Vehicle, Device, VehicleProfile, Db}
use vehinode.Access.{get_vehicle}
use vehinode.Devices.{device_config, get_device}
use vehinode.Profiles.{assign_profile, agent_definition, keep_fields, project_items, computed_field}
use vehinode.Profiles.Versions.{assign_profile-config}
use vehinode.Fixtures.{workshop, vehicle, device}

abbrev built_ins : Key → Option Fields
built_ins k = none

-- A signal with a name to display, which no decoder reads.
abbrev definition : Fields
definition = field "id" (str "c-zero") (
    field "signals"
      (arr (cons (obj (field "name" (str "soc") (field "display_name" (str "Charge") end))) nil))
      (field "version" (str "1") end))

abbrev projection : Fields
projection =
    field "id" (str "c-zero")
      (field "signals" (arr (cons (obj (field "name" (str "soc") end)) nil)) end)

projected : agent_definition definition ≡ ok projection
unfolding agent_definition project_items keep_fields computed_field get
projected = refl

abbrev profile : VehicleProfile
profile = record {
  id = 30;
  created_by = some 1;
  name = "C-Zero";
  description = "";
  definition = definition;
  created_at = 0;
  updated_at = 0;
}

-- Vehicle 10 uses the profile.
abbrev equipped : Db
equipped = record workshop {
  vehicles = record (vehicle 10) { vehicle_profile = some 30 } ∷ vehicle 11 ∷ [];
  profiles = profile ∷ [];
}

assign_profile-config_example :
    (v : Vehicle) × (d : Device) × (get_vehicle (assign_profile workshop (vehicle 10) (some 30)) 10
      ≡ some v)
    × (get_device (assign_profile workshop (vehicle 10) (some 30)) 20 ≡ some d)
    × (v.vehicle_profile ≡ some 30)
    × ((device_config built_ins (assign_profile workshop (vehicle 10) (some 30)) d v
          ≡ device_config built_ins workshop device (vehicle 10))
        ⊎ (d.config_version ≡ device.config_version + 1))
unfolding find
assign_profile-config_example =
    assign_profile-config built_ins workshop (vehicle 10) (some 30) 20 device refl refl refl
