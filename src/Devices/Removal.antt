-- ===== src/Devices/Removal.antt =====
-- What goes with an agent that is deleted and with the telemetry of a vehicle that is reset.
use vehinode.Prelude.{
  ◌≡◌, arith, ℕ, Bool, true, false, Option, some, none, IfSome, List, ◌==◌, All, ok, bind_inverse,
  Bool-cases, inl, inr, sym, ap, ◌∙◌, subst, subst₂, not, ◌&&◌, length, ◌+◌, ==_iff, refl, [], ◌∷◌,
}
use vehinode.Prelude.Table.{any, delete_where, select, find-holds}
use vehinode.Prelude.Table.Selection.{All-mono}
use vehinode.Prelude.Table.Deletion.{
  All-delete_where, All-map, any-delete_where, any-map, any-delete_where_self, delete_where-select,
  length-delete_where-add-select,
}
use vehinode.Models.{
  Key, User, Device, Telemetry, VehicleState, Trigger, HookExecution, operate, Db,
}
use vehinode.Access.Policy.{MayUse}
use vehinode.Devices.Settings.{authorized_inverse}
use vehinode.Devices.{
  is_deleted, refers, forget, is_trigger_deleted, delete_telemetry, delete_device,
  reset_vehicle_telemetry, remove_device, authorized_device, get_device,
}

-- The foreign keys on telemetry, on agents and on triggers.
abbrev pub HasTelemetry : List Telemetry → Key → Type 0
HasTelemetry rows k = any (λ (t : Telemetry). t.id == k) rows ≡ true

abbrev pub HasTrigger : List Trigger → Key → Type 0
HasTrigger rows k = any (λ (t : Trigger). t.id == k) rows ≡ true

abbrev pub HasDevice : List Device → Key → Type 0
HasDevice rows k = any (λ (d : Device). d.id == k) rows ≡ true

abbrev pub ExecutionRefers : Db → HookExecution → Type 0
ExecutionRefers db e =
    HasTrigger db.triggers e.trigger_id × IfSome (HasTelemetry db.telemetry) e.telemetry_id

pub record IsReferential (db : Db) : Type 0 where
  pub states_refer : All (λ (s : VehicleState). HasTelemetry db.telemetry s.telemetry_id) db.states
  pub triggers_refer :
      All (λ (t : Trigger). IfSome (HasTelemetry db.telemetry) t.telemetry_id) db.triggers
  pub agents_refer : All (λ (t : Trigger). IfSome (HasDevice db.devices) t.device_id) db.triggers
  pub executions_refer : All (ExecutionRefers db) db.executions

module _ (q : Telemetry → Bool) (db : Db) where
  abbrev deleted : Key → Bool
  deleted = is_deleted q db.telemetry

  kept :
      (k : Key)
      → HasTelemetry db.telemetry k
      → deleted k ≡ false
      → HasTelemetry (delete_where q db.telemetry) k
  kept k has stays = any-delete_where (λ (t : Telemetry). t.id == k) q db.telemetry has stays

  kept_trigger :
      (k : Key)
      → HasTrigger db.triggers k
      → is_trigger_deleted deleted db.triggers k ≡ false
      → HasTrigger (delete_where (λ (t : Trigger). refers deleted t.telemetry_id) db.triggers) k
  kept_trigger k has stays =
      any-delete_where (λ (t : Trigger). t.id == k) (λ t. refers deleted t.telemetry_id) db.triggers
        has stays

  kept_reference :
      (o : Option Key)
      → IfSome (HasTelemetry db.telemetry) o
      → refers deleted o ≡ false
      → IfSome (HasTelemetry (delete_where q db.telemetry)) o
  kept_reference none has stays = tt
  kept_reference (some k) has stays = kept k has stays

  forgotten :
      (o : Option Key)
      → IfSome (HasTelemetry db.telemetry) o
      → IfSome (HasTelemetry (delete_where q db.telemetry)) (forget deleted o)
  forgotten none has = tt
  forgotten (some k) has = elim (Bool-cases (deleted k)) [
    | inl gone ↦ rw gone tt
    | inr stays ↦ rw stays (kept k has stays)
  ]

  pub delete_telemetry-IsReferential : IsReferential db → IsReferential (delete_telemetry q db)
  unfolding delete_telemetry
  delete_telemetry-IsReferential h = record {
    states_refer =
        All-delete_where _ _ (λ (s : VehicleState). deleted s.telemetry_id) db.states
          (λ s has stays. kept s.telemetry_id has stays) h.states_refer;
    triggers_refer =
        All-delete_where _ _ (λ (t : Trigger). refers deleted t.telemetry_id) db.triggers
          (λ t has stays. kept_reference t.telemetry_id has stays) h.triggers_refer;
    agents_refer =
        All-delete_where _ _ (λ (t : Trigger). refers deleted t.telemetry_id) db.triggers
          (λ t has stays. has) h.agents_refer;
    executions_refer =
        All-map _ _
          (λ (e : HookExecution). record e { telemetry_id = forget deleted e.telemetry_id }) _
          (λ e (has, refers). (has, forgotten e.telemetry_id refers))
          (All-delete_where
            (λ (e : HookExecution).
              HasTrigger (delete_where (λ (t : Trigger). refers deleted t.telemetry_id) db.triggers)
                e.trigger_id
              × IfSome (HasTelemetry db.telemetry) e.telemetry_id)
            (ExecutionRefers db)
            (λ (e : HookExecution). is_trigger_deleted deleted db.triggers e.trigger_id)
            db.executions (λ e (has, refers) stays. (kept_trigger e.trigger_id has stays, refers))
            h.executions_refer);
  }

any-keys :
    (devices : List Device) (j k : Key)
    → (j == k) ≡ false
    → any (λ (d : Device). (d.id == j) && (d.id == k)) devices ≡ false
unfolding any
any-keys [] j k h = refl
any-keys (d ∷ ds) j k h = elim (Bool-cases (d.id == j)) [
  | inl e ↦
      let same : d.id ≡ j = (==_iff d.id j).0 e in
      let other : (d.id == k) ≡ false = rw same h in ground (arith, any-keys ds j k h)
  | inr e ↦ ground (arith, any-keys ds j k h)
]

-- A reference to a deleted agent is set to null, the others have their agent still.
unlinked :
    (devices : List Device) (k : Key) (o : Option Key)
    → IfSome (HasDevice devices) o
    → IfSome (HasDevice (delete_where (λ (d : Device). d.id == k) devices)) (forget (λ j. j == k) o)
unlinked devices k none has = tt
unlinked devices k (some j) has = elim (Bool-cases (j == k)) [
  | inl gone ↦ rw gone tt
  | inr stays ↦ rw stays (
      any-delete_where (λ (d : Device). d.id == j) (λ d. d.id == k) devices has
        (any-keys devices j k stays))
]

delete_device-IsReferential :
    (db : Db) (device : Device) → IsReferential db → IsReferential (delete_device db device)
unfolding delete_device
delete_device-IsReferential db device h = record {
  states_refer = rest.states_refer;
  triggers_refer =
      All-map _ (λ (t : Trigger). IfSome (HasTelemetry left.telemetry) t.telemetry_id) unlink
        left.triggers (λ t has. has) rest.triggers_refer;
  agents_refer =
      All-map (λ (t : Trigger). IfSome (HasDevice (delete_device db device).devices) t.device_id)
        (λ (t : Trigger). IfSome (HasDevice left.devices) t.device_id) unlink left.triggers
        (λ t has. unlinked left.devices device.id t.device_id has) rest.agents_refer;
  executions_refer =
      All-mono (ExecutionRefers left) (ExecutionRefers (delete_device db device)) left.executions
        (λ e (has, refers).
          (any-map (λ (t : Trigger). t.id == e.trigger_id) unlink left.triggers ∙ has, refers))
        rest.executions_refer;
}
  where
    left : Db
    left = delete_telemetry (λ t. t.device_id == device.id) db

    unlink : Trigger → Trigger
    unlink t = record t { device_id = forget (λ k. k == device.id) t.device_id }

    rest : IsReferential left
    rest = delete_telemetry-IsReferential (λ t. t.device_id == device.id) db h

abbrev IsGone : Db → Key → Db → Type 0
IsGone db k db' =
    (any (λ (d : Device). d.id == k) db'.devices ≡ false)
    × (any (λ (t : Telemetry). t.device_id == k) db'.telemetry ≡ false)
    × (db'.telemetry ≡ select (λ (t : Telemetry). not (t.device_id == k)) db.telemetry)

delete_device-IsGone : (db : Db) (device : Device) → IsGone db device.id (delete_device db device)
unfolding delete_device delete_telemetry
delete_device-IsGone db device = (
  any-delete_where_self (λ (d : Device). d.id == device.id) db.devices,
  any-delete_where_self (λ (t : Telemetry). t.device_id == device.id) db.telemetry,
  delete_where-select (λ (t : Telemetry). t.device_id == device.id) db.telemetry,
)

-- Deleting an agent, which takes an operate grant or an administrator, leaves no row of it and no
-- reading of it, keeps every reading of the other agents, and leaves no state, trigger or execution
-- that refers to a row that is gone.
pub remove_device_effect :
    (db : Db) (user : User) (device_id : Key) (db' : Db)
    → IsReferential db
    → remove_device db user device_id ≡ ok db'
    → (device : Device) × (get_device db device_id ≡ some device)
      × MayUse db user device.vehicle_id operate
      × (any (λ (d : Device). d.id == device_id) db'.devices ≡ false)
      × (any (λ (t : Telemetry). t.device_id == device_id) db'.telemetry ≡ false)
      × (db'.telemetry ≡ select (λ (t : Telemetry). not (t.device_id == device_id)) db.telemetry)
      × IsReferential db'
unfolding remove_device
remove_device_effect db user device_id db' referential h =
    let (device, allowed, done) = bind_inverse (authorized_device db user device_id operate) _ h in
    let (found, may) = authorized_inverse db user device_id operate device allowed in
    let e : db' ≡ delete_device db device = ground arith in
    let key : device.id ≡ device_id =
      (==_iff device.id device_id).0
        (find-holds (λ (d : Device). d.id == device_id) db.devices found) in
    let (row, readings, others) = subst₂ (IsGone db) key (sym e) (delete_device-IsGone db device) in
    (
      device,
      found,
      may,
      row,
      readings,
      others,
      subst IsReferential (sym e) (delete_device-IsReferential db device referential),
    )

abbrev reset : Db → Key → Db
reset db vehicle_id =
    let left = delete_telemetry (λ t. t.vehicle_id == vehicle_id) db in
    record left {
      states = delete_where (λ (s : VehicleState). s.vehicle_id == vehicle_id) left.states;
    }

reset-IsReferential :
    (db : Db) (vehicle_id : Key) → IsReferential db → IsReferential (reset db vehicle_id)
reset-IsReferential db vehicle_id h = record {
  states_refer =
      All-delete_where _ (λ (s : VehicleState). HasTelemetry left.telemetry s.telemetry_id)
        (λ (s : VehicleState). s.vehicle_id == vehicle_id) left.states (λ s has _. has)
        rest.states_refer;
  triggers_refer = rest.triggers_refer;
  agents_refer = rest.agents_refer;
  executions_refer = rest.executions_refer;
}
  where
    left : Db
    left = delete_telemetry (λ t. t.vehicle_id == vehicle_id) db

    rest : IsReferential left
    rest = delete_telemetry-IsReferential (λ t. t.vehicle_id == vehicle_id) db h

-- A reset of a vehicle's telemetry leaves no reading and no current state of the vehicle, keeps every
-- reading of the others, reports how many it deleted, and leaves no state, trigger or execution that
-- refers to a row that is gone.
reset_vehicle_telemetry_effect :
    (db : Db) (vehicle_id : Key) (n : ℕ) (db' : Db)
    → IsReferential db
    → reset_vehicle_telemetry db vehicle_id ≡ (n, db')
    → (any (λ (t : Telemetry). t.vehicle_id == vehicle_id) db'.telemetry ≡ false)
      × (any (λ (s : VehicleState). s.vehicle_id == vehicle_id) db'.states ≡ false)
      × (db'.telemetry ≡ select (λ (t : Telemetry). not (t.vehicle_id == vehicle_id)) db.telemetry)
      × (length db'.telemetry + n ≡ length db.telemetry)
      × IsReferential db'
unfolding reset_vehicle_telemetry delete_telemetry
reset_vehicle_telemetry_effect db vehicle_id n db' referential h =
    let e : reset db vehicle_id ≡ db' = ap (λ p. p.1) h in
    (
      rw (sym e)
          (any-delete_where_self (λ (t : Telemetry). t.vehicle_id == vehicle_id) db.telemetry),
      rw (sym e) (any-delete_where_self (λ (s : VehicleState). s.vehicle_id == vehicle_id) _),
      rw (sym e) (delete_where-select (λ (t : Telemetry). t.vehicle_id == vehicle_id) db.telemetry),
      rw (sym e, sym (ap (λ p. p.0) h))
          (length-delete_where-add-select (λ (t : Telemetry). t.vehicle_id == vehicle_id)
            db.telemetry),
      subst IsReferential e (reset-IsReferential db vehicle_id referential),
    )
