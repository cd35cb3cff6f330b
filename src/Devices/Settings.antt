-- ===== src/Devices/Settings.antt =====
-- What an edit of an agent changes, and how the agent learns of it.
use mathlib.Core.Bool.{false≢true}
use vehinode.Prelude.{
  ◌≡◌, ◌⊎◌, inl, inr, refl, sym, ap, ◌∙◌, subst, arith, ◌+◌, Option, some, Bool-cases, ◌==◌, ==_iff,
  if◌then◌else◌, ok, bind_inverse,
}
use vehinode.Prelude.Table.{find-holds}
use vehinode.Prelude.Table.Keys.{find-update_where_self, find-update_where_ne}
use vehinode.Json.{Fields}
use vehinode.Models.{Key, User, Vehicle, VehicleAccessLevel, operate, Device, Db}
use vehinode.Access.{access_level, level_allows}
use vehinode.Access.Policy.{MayUse}
use vehinode.Profiles.{profile_definition}
use vehinode.Devices.{
  DeviceSettings, device_config, update_device, change_device, edit_device, get_device,
  authorized_device,
}

-- Who may name an agent in a request: whoever may use its vehicle.
pub authorized_inverse :
    (db : Db) (user : User) (device_id : Key) (required : VehicleAccessLevel) (device : Device)
    → authorized_device db user device_id required ≡ ok device
    → (get_device db device_id ≡ some device) × MayUse db user device.vehicle_id required
unfolding authorized_device access_level level_allows
authorized_inverse db user device_id required device h = ground arith

-- The answer to an agent changes with its version only.
abbrev pub SameConfig : Device → Device → Type 0
SameConfig d e =
    (d.config_version ≡ e.config_version)
    × (d.sampling_seconds ≡ e.sampling_seconds)
    × (d.upload_seconds ≡ e.upload_seconds)
    × (d.parked_sampling_seconds ≡ e.parked_sampling_seconds)
    × (d.parked_upload_seconds ≡ e.parked_upload_seconds)

update_device-SameConfig :
    (device : Device) (settings : DeviceSettings)
    → SameConfig (update_device device settings) device
      ⊎ ((update_device device settings).config_version ≡ device.config_version + 1)
unfolding update_device
update_device-SameConfig device settings = ground arith

pub get-change_device :
    (db : Db) (k j : Key) (f : Device → Device) {d : Device}
    → ((x : Device) → (f x).id ≡ x.id)
    → get_device db k ≡ some d
    → get_device (change_device k f db) j ≡ (if k == j then some (f d) else get_device db j)
get-change_device db k j f {d} keeps found = elim (Bool-cases (k == j)) [
  | inl same ↦ rw same (
      subst (λ i. get_device (change_device k f db) i ≡ some (f d)) ((==_iff k j).0 same)
        (find-update_where_self (λ (d : Device). d.id) k f db.devices {a = d} keeps found))
  | inr other ↦ rw other (
      find-update_where_ne (λ (d : Device). d.id) k j f db.devices keeps
        (λ e. false≢true (sym other ∙ (==_iff k j).1 (sym e))))
]

module _ (built_ins : Key → Option Fields) where
  config-SameConfig :
      (db db' : Db) (d e : Device) (v : Vehicle)
      → db'.profiles ≡ db.profiles
      → SameConfig d e
      → device_config built_ins db' d v ≡ device_config built_ins db e v
  unfolding device_config profile_definition
  config-SameConfig db db' d e v same s = ground arith

  config-update_device :
      (db db' : Db) (device : Device) (settings : DeviceSettings) (v : Vehicle)
      → db'.profiles ≡ db.profiles
      → (device_config built_ins db' (update_device device settings) v
          ≡ device_config built_ins db device v)
        ⊎ ((update_device device settings).config_version ≡ device.config_version + 1)
  config-update_device db db' device settings v same =
      elim (update_device-SameConfig device settings) [
        | inl s ↦ inl (config-SameConfig db db' (update_device device settings) device v same s)
        | inr raised ↦ inr raised
      ]

  -- A successful edit of an agent was allowed by an operate grant or to an administrator; it stores
  -- the requested settings and answers with the stored row, leaves every other agent alone, and
  -- either leaves the configuration that the agent fetches as it was or raises its version by one.
  edit_device_effect :
      (db : Db) (user : User) (k j : Key) (settings : DeviceSettings) (vehicle : Vehicle)
      (answer : Device) (db' : Db)
      → edit_device db user k settings ≡ ok (answer, db')
      → (device : Device) × (get_device db k ≡ some device)
        × MayUse db user device.vehicle_id operate
        × (get_device db' j ≡ (if k == j then some answer else get_device db j))
        × (answer.name ≡ settings.name)
        × (answer.sampling_seconds ≡ settings.sampling_seconds)
        × (answer.upload_seconds ≡ settings.upload_seconds)
        × (answer.parked_sampling_seconds ≡ settings.parked_sampling_seconds)
        × (answer.parked_upload_seconds ≡ settings.parked_upload_seconds)
        × ((device_config built_ins db' answer vehicle ≡ device_config built_ins db device vehicle)
            ⊎ (answer.config_version ≡ device.config_version + 1))
  unfolding edit_device update_device
  edit_device_effect db user k j settings vehicle answer db' h =
      let (device, allowed, done) = bind_inverse (authorized_device db user k operate) _ h in
      let (found, may) = authorized_inverse db user k operate device allowed in
      let stored : answer ≡ update_device device settings = ground arith in
      let at_row : db' ≡ change_device device.id (λ d. update_device d settings) db =
        ground arith in
      let key : device.id ≡ k =
        (==_iff device.id k).0 (find-holds (λ (d : Device). d.id == k) db.devices found) in
      let e : db' ≡ change_device k (λ d. update_device d settings) db =
        subst (λ i. db' ≡ change_device i (λ d. update_device d settings) db) key at_row in
      (
        device,
        found,
        may,
        rw (e, stored) (get-change_device db k j (λ d. update_device d settings) (λ d. refl) found),
        ap (λ (d : Device). d.name) stored,
        ap (λ (d : Device). d.sampling_seconds) stored,
        ap (λ (d : Device). d.upload_seconds) stored,
        ap (λ (d : Device). d.parked_sampling_seconds) stored,
        ap (λ (d : Device). d.parked_upload_seconds) stored,
        subst
            (λ a.
              (device_config built_ins db' a vehicle ≡ device_config built_ins db device vehicle)
              ⊎ (a.config_version ≡ device.config_version + 1))
            (sym stored)
            (config-update_device db db' device settings vehicle (ap (λ (x : Db). x.profiles) e)),
      )
