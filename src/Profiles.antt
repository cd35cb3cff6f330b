-- ===== src/Profiles.antt =====
-- backend/app/vehicle_profiles/services.py: how an agent decodes the frames of a vehicle, and the
-- versions by which agents learn of a change. The built-in profiles, which the source reads from
-- YAML files, are an argument.
mod Projection
mod Versions
mod Tests
use vehinode.Prelude.{
  ℕ, ◌+◌, String, Bool, true, false, not, ◌&&◌, ◌||◌, Option, none, some, List, [], ◌∷◌, map, elem,
  ◌==◌, str_eq, eq_some, if◌then◌else◌, Result, ok, err, ◌>>=◌,
}
use vehinode.Prelude.Table.{find, select, update_where, delete_where}
use vehinode.Json.{Json, arr, obj, Items, nil, cons, Fields, end, field, get}
use vehinode.Models.{Key, User, Vehicle, Device, VehicleProfile, Db}
use vehinode.Access.{is_admin}

abbrev pub agent_signal_keys : List String
agent_signal_keys = "name" ∷ "source" ∷ "decoder" ∷ "unit" ∷ "minimum" ∷ "maximum" ∷ []

abbrev pub agent_computed_keys : List String
agent_computed_keys = "name" ∷ "operation" ∷ "inputs" ∷ "unit" ∷ "scale" ∷ []

-- `key in keys`
abbrev pub is_key : String → List String → Bool
is_key key [] = false
is_key key (k ∷ ks) = str_eq k key || is_key key ks

-- `{key: value for key, value in fields.items() if key in keys}`
unfoldable pub keep_fields : List String → Fields → Fields
keep_fields keys end = end
keep_fields keys (field k v fs) =
    let rest = keep_fields keys fs in if is_key k keys then field k v rest else rest

-- `value.items()`, which only a dictionary has
abbrev pub items : Json → Result String Fields
items (obj fs) = ok fs
items _ = err "AttributeError"

-- `[{key: value for ... if key in keys} for value in values]`
unfoldable pub project_items : List String → Items → Result String Items
project_items keys nil = ok nil
project_items keys (cons value values) = do
  fs ← items value
  rest ← project_items keys values
  ok (cons (obj (keep_fields keys fs)) rest)

-- `value if isinstance(value, list) else []`
abbrev pub list_or_empty : Option Json → Items
list_or_empty (some (arr values)) = values
list_or_empty _ = nil

-- `definition["id"]`
abbrev pub required_field : String → Fields → Result String Json
required_field key fs = elim (get key fs) [ none ↦ err "KeyError" | some value ↦ ok value ]

-- The last field of the projection, which is left out where there is no computed metric.
unfoldable pub computed_field : Items → Result String Fields
computed_field nil = ok end
computed_field (cons value values) = do
  projected ← project_items agent_computed_keys (cons value values)
  ok (field "computed_metrics" (arr projected) end)

unfoldable pub agent_definition : Fields → Result String Fields
agent_definition definition = do
  id ← required_field "id" definition
  signals ← project_items agent_signal_keys (list_or_empty (get "signals" definition))
  computed ← computed_field (list_or_empty (get "computed_metrics" definition))
  ok (field "id" id (field "signals" (arr signals) computed))

abbrev pub profile_by_id : Db → Key → Option VehicleProfile
profile_by_id db profile_id = find (λ (p : VehicleProfile). p.id == profile_id) db.profiles

-- `agent_definition(definition)`, or `None`
abbrev pub projected : Option Fields → Result String (Option Fields)
projected none = ok none
projected (some definition) = do projection ← agent_definition definition; ok (some projection)

-- A built-in definition is not empty, so that its truth test only asks whether there is one.
unfoldable pub profile_definition :
    (Key → Option Fields) → Db → Option Key → Result String (Option Fields)
profile_definition built_ins db none = ok none
profile_definition built_ins db (some profile_id) = elim (built_ins profile_id) [
  | some definition ↦ projected (some definition)
  | none ↦ elim (profile_by_id db profile_id) [
    | none ↦ projected none
    | some profile ↦ projected (some profile.definition)
  ]
]

abbrev pub can_edit_profile : User → VehicleProfile → Bool
can_edit_profile user profile = is_admin user || eq_some profile.created_by user.id

-- `Device.config_version + 1`
abbrev pub bump : Device → Device
bump device = record device { config_version = device.config_version + 1 }

abbrev pub assigned_vehicle_ids : Db → Key → List Key
assigned_vehicle_ids db profile_id =
    map (λ (v : Vehicle). v.id)
      (select (λ (v : Vehicle). eq_some v.vehicle_profile profile_id) db.vehicles)

unfoldable pub bump_assigned_devices : Db → Key → Db
bump_assigned_devices db profile_id = record db {
  devices =
      update_where (λ (d : Device). elem d.vehicle_id (assigned_vehicle_ids db profile_id)) bump
        db.devices;
}

unfoldable pub delete_profile : Db → VehicleProfile → Db
delete_profile db profile =
    let db' = bump_assigned_devices db profile.id in
    record db' {
      vehicles =
          update_where (λ (v : Vehicle). eq_some v.vehicle_profile profile.id)
            (λ v. record v { vehicle_profile = none }) db'.vehicles;
      profiles = delete_where (λ (p : VehicleProfile). p.id == profile.id) db'.profiles;
    }

-- `left == right` of two nullable identifiers
abbrev pub same_profile : Option Key → Option Key → Bool
same_profile none none = true
same_profile (some j) (some k) = j == k
same_profile _ _ = false

unfoldable pub assign_profile : Db → Vehicle → Option Key → Db
assign_profile db vehicle profile_id =
    if same_profile profile_id vehicle.vehicle_profile then db else record db {
      vehicles =
          update_where (λ (v : Vehicle). v.id == vehicle.id)
            (λ v. record v { vehicle_profile = profile_id }) db.vehicles;
      devices = update_where (λ (d : Device). d.vehicle_id == vehicle.id) bump db.devices;
    }
