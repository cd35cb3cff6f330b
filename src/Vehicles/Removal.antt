-- ===== src/Vehicles/Removal.antt =====
-- What is left of a vehicle that is removed.
use vehinode.Prelude.{
  String, ◌≡◌, refl, sym, ◌∙◌, subst, subst₂, arith, Bool, true, false, not, Option, some, IfSome,
  ◌==◌, ==_iff, eq_some, Bool-cases, Option-cases, inl, inr, if◌then◌else◌, All, ok, bind_inverse,
  raise_if, HttpError,
}
use vehinode.Prelude.Table.{any, find-holds}
use vehinode.Prelude.Table.Orders.{any-delete_where_covered}
use vehinode.Prelude.Table.Selection.{All-All}
use vehinode.Prelude.Table.Deletion.{any-delete_where_self, any-map, All-map}
use vehinode.Json.{Json, null, bool, int, float, str, arr, obj, Items, nil, cons, Fields, set}
use vehinode.Json.Laws.{get-set_self, get-pop_self}
use vehinode.Models.{
  Key, User, Vehicle, VehiclePhoto, VehicleAccessGrant, Device, EnrollmentToken, Telemetry,
  VehicleState, Trigger, Hook, Dashboard, operate, Db,
}
use vehinode.Access.{is_admin, get_vehicle, authorize_vehicle}
use vehinode.Access.Policy.{authorize-MayUse}
use vehinode.Vehicles.{
  refers_to, without_vehicle, update_widgets, any_refers, widgets_of, update_layout, is_reading,
  delete_vehicle_row, delete_vehicle, remove_vehicle,
}
use vehinode.Devices.{delete_telemetry}

module _ (id : String) where
  kept-refers_to :
      (value : Json)
      → refers_to id (if refers_to id value then without_vehicle value else value) ≡ false
  unfolding refers_to
  kept-refers_to (obj fs) = ground (arith, get-pop_self "vehicle_id" fs)
  kept-refers_to null = refl
  kept-refers_to (bool b) = refl
  kept-refers_to (int n) = refl
  kept-refers_to (float d) = refl
  kept-refers_to (str s) = refl
  kept-refers_to (arr xs) = refl

  any_refers-update_widgets : (values : Items) → any_refers id (update_widgets id values) ≡ false
  unfolding any_refers update_widgets
  any_refers-update_widgets nil = refl
  any_refers-update_widgets (cons value values) =
      ground (arith, kept-refers_to value, any_refers-update_widgets values)

  abbrev IsClear : Items → Type 0
  IsClear values = any_refers id values ≡ false

  -- No widget of the layout shows the vehicle.
  abbrev pub ShowsNone : Fields → Type 0
  ShowsNone layout = IfSome IsClear (widgets_of layout)

  update_layout-ShowsNone : (layout : Fields) → ShowsNone (update_layout id layout)
  unfolding update_layout
  update_layout-ShowsNone layout = elim (Option-cases (widgets_of layout)) [
    | inl no_list ↦
        let same : update_layout id layout ≡ layout = ground arith in
        subst ShowsNone (sym same) (subst (IfSome IsClear) (sym no_list) tt)
    | inr (values, e) ↦ elim (Bool-cases (any_refers id values)) [
      | inl shows ↦
          let changed : update_layout id layout
              ≡ set "widgets" (arr (update_widgets id values)) layout =
            ground arith in
          let stored : widgets_of (set "widgets" (arr (update_widgets id values)) layout)
              ≡ some (update_widgets id values) =
            ground (arith, get-set_self "widgets" (arr (update_widgets id values)) layout) in
          subst ShowsNone (sym changed)
            (subst (IfSome IsClear) (sym stored) (any_refers-update_widgets values))
      | inr clear ↦
          let same : update_layout id layout ≡ layout = ground arith in
          subst ShowsNone (sym same) (subst (IfSome IsClear) (sym e) clear)
    ]
  ]

-- No row refers to the vehicle any more.
pub record IsRemoved (id_text : Key → String) (k : Key) (db : Db) : Type 0 where
  pub row : any (λ (v : Vehicle). v.id == k) db.vehicles ≡ false
  pub photo : any (λ (p : VehiclePhoto). p.vehicle_id == k) db.photos ≡ false
  pub access : any (λ (g : VehicleAccessGrant). g.vehicle_id == k) db.grants ≡ false
  pub agents : any (λ (d : Device). d.vehicle_id == k) db.devices ≡ false
  pub enrollments : any (λ (t : EnrollmentToken). t.vehicle_id == k) db.tokens ≡ false
  pub readings : any (λ (t : Telemetry). t.vehicle_id == k) db.telemetry ≡ false
  pub state : any (λ (s : VehicleState). s.vehicle_id == k) db.states ≡ false
  pub events : any (λ (t : Trigger). eq_some t.vehicle_id k) db.triggers ≡ false
  pub automation : any (λ (h : Hook). eq_some h.vehicle_id k) db.hooks ≡ false
  pub layouts : All (λ (d : Dashboard). ShowsNone (id_text k) d.layout) db.dashboards

delete_vehicle-IsRemoved :
    (id_text : Key → String) (db : Db) (v : Vehicle)
    → IsRemoved id_text v.id (delete_vehicle id_text db v).1
unfolding delete_vehicle delete_vehicle_row delete_telemetry
delete_vehicle-IsRemoved id_text db v =
    let k = v.id in
    record {
      row = any-delete_where_self (λ (x : Vehicle). x.id == k) db.vehicles;
      photo = any-delete_where_self (λ (p : VehiclePhoto). p.vehicle_id == k) db.photos;
      access = any-delete_where_self (λ (g : VehicleAccessGrant). g.vehicle_id == k) db.grants;
      agents = any-delete_where_self (λ (d : Device). d.vehicle_id == k) db.devices;
      enrollments = any-delete_where_self (λ (t : EnrollmentToken). t.vehicle_id == k) db.tokens;
      readings =
          any-delete_where_covered (λ (t : Telemetry). t.vehicle_id == k) (is_reading db k)
            db.telemetry (λ t own. ground arith);
      state = any-delete_where_self (λ (s : VehicleState). s.vehicle_id == k) _;
      events =
          any-map (λ (t : Trigger). eq_some t.vehicle_id k) _ _
          ∙ any-delete_where_self (λ (t : Trigger). eq_some t.vehicle_id k) _;
      automation = any-delete_where_self (λ (h : Hook). eq_some h.vehicle_id k) db.hooks;
      layouts =
          All-map (λ (d : Dashboard). ShowsNone (id_text k) d.layout) (λ d. Unit {0})
            (λ d. record d { layout = update_layout (id_text k) d.layout }) db.dashboards
            (λ d _. update_layout-ShowsNone (id_text k) d.layout)
            (All-All (λ (d : Dashboard). Unit {0}) db.dashboards (λ _. tt));
    }

admin_of : (b : Bool) (e : HttpError) {a : Unit {0}} → raise_if (not b) e ≡ ok a → b ≡ true
admin_of true e h = refl
admin_of false e h = absurd (ground arith)

-- A vehicle is removed by administrators only, and if it exists. Afterwards no photo, grant, agent,
-- enrollment, reading, state, trigger or hook refers to it, and no dashboard shows it.
pub remove_vehicle_effect :
    (id_text : Key → String) (db : Db) (user : User) (vehicle_id : Key)
    (storage_key : Option String) (db' : Db)
    → remove_vehicle id_text db user vehicle_id ≡ ok (storage_key, db')
    → (is_admin user ≡ true)
      × ((v : Vehicle) × (get_vehicle db vehicle_id ≡ some v))
      × IsRemoved id_text vehicle_id db'
unfolding remove_vehicle
remove_vehicle_effect id_text db user vehicle_id storage_key db' h =
    let (a, authorized, h₁) = bind_inverse (authorize_vehicle db user vehicle_id operate) _ h in
    let (_, admin, h₂) = bind_inverse (raise_if (not (is_admin user)) _) _ h₁ in
    let (found, _) = authorize-MayUse db user vehicle_id operate a authorized in
    let same : a.vehicle.id ≡ vehicle_id =
      (==_iff a.vehicle.id vehicle_id).0
        (find-holds (λ (v : Vehicle). v.id == vehicle_id) db.vehicles found) in
    let removed : (delete_vehicle id_text db a.vehicle).1 ≡ db' = ground arith in
    (
      admin_of (is_admin user) _ admin,
      (a.vehicle, found),
      subst₂ (IsRemoved id_text) same removed (delete_vehicle-IsRemoved id_text db a.vehicle),
    )
