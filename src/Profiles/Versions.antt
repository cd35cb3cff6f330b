-- ===== src/Profiles/Versions.antt =====
-- An agent fetches its configuration when its version has changed, so that a change of the profile of
-- a vehicle has to raise the version of every agent that it concerns.
use vehinode.Prelude.{
  ◌≡◌, ◌⊎◌, inl, inr, refl, sym, arith, ◌+◌, true, false, Option, some, none, elem, List, [], ◌∷◌,
  map, Bool-cases, Option-cases, ◌==◌, ==_iff, ==_refl, eq_some, if◌then◌else◌,
}
use vehinode.Prelude.Table.{
  find, any, select, update_where, find-update_where-some, find-delete_where_ne,
}
use vehinode.Prelude.Table.Deletion.{any-delete_where_self}
use vehinode.Json.{Fields}
use vehinode.Models.{Key, Vehicle, Device, VehicleProfile, Db}
use vehinode.Access.{get_vehicle}
use vehinode.Devices.{device_config, get_device}
use vehinode.Profiles.{
  profile_definition, profile_by_id, bump, assign_profile, same_profile, delete_profile,
  bump_assigned_devices, assigned_vehicle_ids,
}

same_profile_eq : (a b : Option Key) → same_profile a b ≡ true → a ≡ b
same_profile_eq a b h = ground arith

module _ (built_ins : Key → Option Fields) where
  -- Assigning a profile to a vehicle stores it, and an agent of the vehicle is then given the same
  -- configuration as before or one whose version is higher by one.
  pub assign_profile-config :
      (db : Db) (vehicle : Vehicle) (profile_id : Option Key) (k : Key) (device : Device)
      → get_vehicle db vehicle.id ≡ some vehicle
      → get_device db k ≡ some device
      → device.vehicle_id ≡ vehicle.id
      → (v : Vehicle) × (d : Device) × (get_vehicle
            (assign_profile db vehicle profile_id)
            vehicle.id
          ≡ some v)
        × (get_device (assign_profile db vehicle profile_id) k ≡ some d)
        × (v.vehicle_profile ≡ profile_id)
        × ((device_config built_ins (assign_profile db vehicle profile_id) d v
              ≡ device_config built_ins db device vehicle)
            ⊎ (d.config_version ≡ device.config_version + 1))
  unfolding assign_profile
  assign_profile-config db vehicle profile_id k device there found of =
      elim (Bool-cases (same_profile profile_id vehicle.vehicle_profile)) [
        | inl same ↦ rw same (
          vehicle,
          device,
          there,
          found,
          sym (same_profile_eq profile_id vehicle.vehicle_profile same),
          inl refl,
        )
        | inr other ↦ rw other (
          record vehicle { vehicle_profile = profile_id },
          bump device,
          ground (
            arith,
            find-update_where-some (λ (v : Vehicle). v.id == vehicle.id) (λ v. v.id == vehicle.id)
                (λ v. record v { vehicle_profile = profile_id }) db.vehicles {a = vehicle}
                (λ v. refl) there,
            ==_refl vehicle.id,
          ),
          ground (
            arith,
            find-update_where-some (λ (d : Device). d.id == k) (λ d. d.vehicle_id == vehicle.id)
                bump db.devices {a = device} (λ d. refl) found,
            (==_iff device.vehicle_id vehicle.id).1 of,
          ),
          refl,
          inr refl,
        )
      ]

elem-assigned :
    (vehicles : List Vehicle) (profile_id : Key) {v : Vehicle} (k : Key)
    → find (λ (v : Vehicle). v.id == k) vehicles ≡ some v
    → eq_some v.vehicle_profile profile_id ≡ true
    → elem k (
        map
          (λ (v : Vehicle). v.id)
          (select (λ (v : Vehicle). eq_some v.vehicle_profile profile_id) vehicles))
      ≡ true
unfolding find select
elem-assigned [] profile_id {v} k found uses = ground arith
elem-assigned (x ∷ xs) profile_id {v} k found uses =
    ground (arith, elem-assigned xs profile_id {v = v} k)

none_uses :
    (k : Key) (vehicles : List Vehicle)
    → any
        (λ (v : Vehicle). eq_some v.vehicle_profile k)
        (update_where
          (λ (v : Vehicle). eq_some v.vehicle_profile k)
          (λ v. record v { vehicle_profile = none })
          vehicles)
      ≡ false
unfolding any update_where
none_uses k [] = refl
none_uses k (v ∷ vs) = ground (arith, none_uses k vs)

module _ (built_ins : Key → Option Fields) (db : Db) (profile : VehicleProfile) where
  abbrev without : Db
  without = delete_profile db profile

  vehicle_after :
      (i : Key) {vehicle : Vehicle}
      → get_vehicle db i ≡ some vehicle
      → get_vehicle without i
        ≡ some (
            if eq_some vehicle.vehicle_profile profile.id
            then record vehicle { vehicle_profile = none }
            else vehicle)
  unfolding delete_profile bump_assigned_devices
  vehicle_after i {vehicle} there =
      find-update_where-some (λ (v : Vehicle). v.id == i)
        (λ v. eq_some v.vehicle_profile profile.id) (λ v. record v { vehicle_profile = none })
        db.vehicles {a = vehicle} (λ v. refl) there

  device_after :
      (k : Key) {device : Device}
      → get_device db k ≡ some device
      → get_device without k
        ≡ some (
            if elem device.vehicle_id (assigned_vehicle_ids db profile.id)
            then bump device
            else device)
  unfolding delete_profile bump_assigned_devices
  device_after k {device} found =
      find-update_where-some (λ (d : Device). d.id == k)
        (λ d. elem d.vehicle_id (assigned_vehicle_ids db profile.id)) bump db.devices {a = device}
        (λ d. refl) found

  other_profile :
      (j : Key) → (j == profile.id) ≡ false → profile_by_id without j ≡ profile_by_id db j
  unfolding delete_profile bump_assigned_devices
  other_profile j ne =
      find-delete_where_ne (λ (p : VehicleProfile). p.id == j) (λ p. p.id == profile.id) db.profiles
        (λ p e. ground arith)

  same_definition :
      (o : Option Key)
      → eq_some o profile.id ≡ false
      → profile_definition built_ins without o ≡ profile_definition built_ins db o
  unfolding profile_definition
  same_definition none other = refl
  same_definition (some j) other = elim (Option-cases (built_ins j)) [
    | inl custom ↦ ground (arith, other_profile j other)
    | inr (definition, built_in) ↦ ground arith
  ]

  same_config :
      (device : Device) (vehicle : Vehicle)
      → eq_some vehicle.vehicle_profile profile.id ≡ false
      → device_config built_ins without device vehicle ≡ device_config built_ins db device vehicle
  unfolding device_config
  same_config device vehicle other = rw (same_definition vehicle.vehicle_profile other) refl

  config_after :
      (k i : Key) (device : Device) (vehicle : Vehicle)
      → get_vehicle db i ≡ some vehicle
      → get_device db k ≡ some device
      → device.vehicle_id ≡ i
      → (v : Vehicle) × (d : Device) × (get_vehicle without i ≡ some v)
        × (get_device without k ≡ some d)
        × ((device_config built_ins without d v ≡ device_config built_ins db device vehicle)
            ⊎ (d.config_version ≡ device.config_version + 1))
  config_after k i device vehicle there found of =
      elim (Bool-cases (eq_some vehicle.vehicle_profile profile.id)) [
        | inl uses ↦ (
          record vehicle { vehicle_profile = none },
          bump device,
          ground (arith, vehicle_after i there),
          ground (
            arith,
            device_after k found,
            elem-assigned db.vehicles profile.id {v = vehicle} i there uses,
          ),
          inr refl,
        )
        | inr other ↦
            elim (Bool-cases (elem device.vehicle_id (assigned_vehicle_ids db profile.id))) [
              | inl raised ↦ (
                vehicle,
                bump device,
                ground (arith, vehicle_after i there),
                ground (arith, device_after k found),
                inr refl,
              )
              | inr untouched ↦ (
                vehicle,
                device,
                ground (arith, vehicle_after i there),
                ground (arith, device_after k found),
                inl (same_config device vehicle other),
              )
            ]
      ]

  -- Deleting a profile removes its row and leaves no vehicle that uses it, and an agent is then given
  -- the same configuration as before or one whose version is higher by one.
  delete_profile-config :
      (k i : Key) (device : Device) (vehicle : Vehicle)
      → get_vehicle db i ≡ some vehicle
      → get_device db k ≡ some device
      → device.vehicle_id ≡ i
      → (any (λ (p : VehicleProfile). p.id == profile.id) (delete_profile db profile).profiles
          ≡ false)
        × (any
              (λ (v : Vehicle). eq_some v.vehicle_profile profile.id)
              (delete_profile db profile).vehicles
            ≡ false)
        × (v : Vehicle) × (d : Device) × (get_vehicle (delete_profile db profile) i ≡ some v)
        × (get_device (delete_profile db profile) k ≡ some d)
        × ((device_config built_ins (delete_profile db profile) d v
              ≡ device_config built_ins db device vehicle)
            ⊎ (d.config_version ≡ device.config_version + 1))
  unfolding delete_profile bump_assigned_devices
  delete_profile-config k i device vehicle there found of =
      let (v, d, there', found', same) = config_after k i device vehicle there found of in
      (
        any-delete_where_self (λ (p : VehicleProfile). p.id == profile.id) db.profiles,
        none_uses profile.id db.vehicles,
        v,
        d,
        there',
        found',
        same,
      )
