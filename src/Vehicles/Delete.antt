-- ===== src/Vehicles/Delete.antt =====
-- `delete_vehicle` of backend/app/vehicles/services.py, with what its foreign keys delete. Layouts hold
-- the text of an identifier, which `id_text` gives.
use vehinode.Prelude.{
  String, Bool, false, ◌&&◌, ◌||◌, Option, none, some, List, map, elem, ◌==◌, eq_some,
  if◌then◌else◌,
}
use vehinode.Prelude.Table.{any, find, select, delete_where}
use vehinode.Json.{Json, arr, obj, Items, nil, cons, Fields, get, set, pop, is_text}
use vehinode.Models.{
  Key, Vehicle, VehiclePhoto, VehicleAccessGrant, Device, EnrollmentToken, Telemetry, VehicleState,
  Trigger, Hook, HookRevision, HookState, HookExecution, Dashboard, Db,
}
use vehinode.Devices.{delete_telemetry, forget}

-- `isinstance(value, dict) and value.get("vehicle_id") == vehicle.id`
unfoldable pub refers_to : String → Json → Bool
refers_to id (obj fs) = is_text id (get "vehicle_id" fs)
refers_to id _ = false

abbrev pub without_vehicle : Json → Json
without_vehicle (obj fs) = obj (pop "vehicle_id" fs)
without_vehicle value = value

unfoldable pub update_widgets : String → Items → Items
unfolding refers_to
update_widgets id nil = nil
update_widgets id (cons value values) =
    cons (if refers_to id value then without_vehicle value else value) (update_widgets id values)

unfoldable pub any_refers : String → Items → Bool
unfolding refers_to
any_refers id nil = false
any_refers id (cons value values) = refers_to id value || any_refers id values

-- The widgets of a layout, an empty list if there are none; `none` where they are no list.
abbrev pub widgets_of : Fields → Option Items
widgets_of layout = elim (get "widgets" layout) [
  | none ↦ some nil
  | some (arr values) ↦ some values
  | some _ ↦ none
]

unfoldable pub update_layout : String → Fields → Fields
unfolding update_widgets any_refers
update_layout id layout = elim (widgets_of layout) [
  | none ↦ layout
  | some values ↦
      if any_refers id values then set "widgets" (arr (update_widgets id values)) layout else layout
]

abbrev pub vehicle_devices : Db → Key → List Key
vehicle_devices db k =
    map (λ (d : Device). d.id) (select (λ (d : Device). d.vehicle_id == k) db.devices)

-- The readings of the vehicle and of its agents.
abbrev pub is_reading : Db → Key → Telemetry → Bool
is_reading db k t = t.vehicle_id == k || elem t.device_id (vehicle_devices db k)

abbrev pub is_hook : Db → Key → Key → Bool
is_hook db k hook_id = any (λ (h : Hook). h.id == hook_id && eq_some h.vehicle_id k) db.hooks

abbrev pub is_trigger : Db → Key → Key → Bool
is_trigger db k trigger_id =
    any (λ (t : Trigger). t.id == trigger_id && eq_some t.vehicle_id k) db.triggers

-- The rows that the foreign keys on vehicles, devices, telemetry, triggers and hooks take along.
unfoldable pub delete_vehicle_row : Db → Key → Db
delete_vehicle_row db k =
    let left = delete_telemetry (is_reading db k) db in
    record left {
      vehicles = delete_where (λ (v : Vehicle). v.id == k) left.vehicles;
      photos = delete_where (λ (p : VehiclePhoto). p.vehicle_id == k) left.photos;
      grants = delete_where (λ (g : VehicleAccessGrant). g.vehicle_id == k) left.grants;
      devices = delete_where (λ (d : Device). d.vehicle_id == k) left.devices;
      tokens = delete_where (λ (t : EnrollmentToken). t.vehicle_id == k) left.tokens;
      states = delete_where (λ (s : VehicleState). s.vehicle_id == k) left.states;
      triggers =
          map
            (λ (t : Trigger). record t {
              device_id = forget (λ d. elem d (vehicle_devices db k)) t.device_id;
            })
            (delete_where (λ (t : Trigger). eq_some t.vehicle_id k) left.triggers);
      hooks = delete_where (λ (h : Hook). eq_some h.vehicle_id k) left.hooks;
      revisions = delete_where (λ (r : HookRevision). is_hook db k r.hook_id) left.revisions;
      hook_states = delete_where (λ (s : HookState). is_hook db k s.hook_id) left.hook_states;
      executions =
          delete_where
            (λ (e : HookExecution). is_hook db k e.hook_id || is_trigger db k e.trigger_id)
            left.executions;
    }

abbrev pub storage_key_of : Option VehiclePhoto → Option String
storage_key_of none = none
storage_key_of (some photo) = some photo.storage_key

-- The storage key of the photo, and the database.
unfoldable pub delete_vehicle : (Key → String) → Db → Vehicle → Option String × Db
unfolding update_layout delete_vehicle_row
delete_vehicle id_text db vehicle =
    let stripped = record db {
      dashboards =
          map (λ (d : Dashboard). record d { layout = update_layout (id_text vehicle.id) d.layout })
            db.dashboards;
    } in
    (
      storage_key_of (find (λ (p : VehiclePhoto). p.vehicle_id == vehicle.id) db.photos),
      delete_vehicle_row stripped vehicle.id,
    )
