-- ===== src/Worker/Input.antt =====
-- `RuntimeResult`, `_batch` and `build_runtime_input` of backend/app/hooks/runtime.py.
use vehinode.Prelude.{
  String, Bool, Option, none, some, List, [], ◌∷◌, elem, ◌==◌, Result, ok, err, ◌>>=◌,
}
use vehinode.Prelude.Table.{find, select, order_by}
use vehinode.Json.{Json, obj, end, Fields}
use vehinode.Models.{
  Key, Trigger, Telemetry, Vehicle, Device, VehicleState, Hook, HookState, HookExecution,
  ExecutionStatus, Db,
}

pub record RuntimeResult : Type 0 where
  pub status : ExecutionStatus
  pub state : Json
  pub logs : List Fields
  pub error : Option String

-- The rows that the dictionary `data` is read from; the secrets are handed over beside it.
pub record RuntimeInput : Type 0 where
  pub source : String
  pub dry_run : Bool
  pub event : Trigger
  pub telemetry : Telemetry
  pub telemetry_batch : List Telemetry
  pub vehicle : Vehicle
  pub vehicle_state : Option VehicleState
  pub device : Device
  pub state : Json

-- `rows or [latest]`
or_latest : Telemetry → List Telemetry → List Telemetry
or_latest latest [] = latest ∷ []
or_latest latest (row ∷ rows) = row ∷ rows

-- `_batch`: ordered by the time of recording, and by the sequence within one time.
unfoldable pub batch_rows : Db → Trigger → Telemetry → List Telemetry
unfolding or_latest
batch_rows db trigger latest = elim trigger.payload.telemetry_ids [
  | [] ↦ latest ∷ []
  | k ∷ ks ↦ or_latest latest (
      order_by (λ (t : Telemetry). t.recorded_at)
        (order_by (λ (t : Telemetry). t.sequence)
          (select (λ (t : Telemetry). elem t.id (k ∷ ks)) db.telemetry)))
]

-- `value or raise LookupError(message)`
abbrev required : {A : Type 0} → Option A → String → Result String A
required none message = err message
required (some a) message = ok a

-- `db.get(Telemetry, key) if key else None`
abbrev get_telemetry : Db → Option Key → Option Telemetry
get_telemetry db none = none
get_telemetry db (some k) = find (λ (t : Telemetry). t.id == k) db.telemetry

abbrev state_value : Option HookState → Json
state_value none = obj end
state_value (some s) = s.value

unfoldable pub build_runtime_input : Db → HookExecution → Result String (Hook × RuntimeInput)
build_runtime_input db execution = do
  hook ←
      required (find (λ (h : Hook). h.id == execution.hook_id) db.hooks)
        "hook execution inputs no longer exist"
  trigger ←
      required (find (λ (t : Trigger). t.id == execution.trigger_id) db.triggers)
        "hook execution inputs no longer exist"
  telemetry ←
      required (get_telemetry db execution.telemetry_id) "hook execution inputs no longer exist"
  vehicle ←
      required (find (λ (v : Vehicle). v.id == telemetry.vehicle_id) db.vehicles)
        "vehicle or device no longer exists"
  device ←
      required (find (λ (d : Device). d.id == telemetry.device_id) db.devices)
        "vehicle or device no longer exists"
  ok (
    hook,
    record {
      source = hook.source;
      dry_run = execution.dry_run;
      event = trigger;
      telemetry = telemetry;
      telemetry_batch = batch_rows db trigger telemetry;
      vehicle = vehicle;
      vehicle_state = find (λ (s : VehicleState). s.vehicle_id == vehicle.id) db.states;
      device = device;
      state = state_value (find (λ (s : HookState). s.hook_id == hook.id) db.hook_states);
    },
  )
