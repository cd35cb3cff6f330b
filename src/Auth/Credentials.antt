-- ===== src/Auth/Credentials.antt =====
-- The credentials of agents: what a rotation and a revocation do to the requests of an agent.
use vehinode.Prelude.{
  ◌≡◌, refl, sym, ap, subst, subst₂, arith, ◌+◌, String, true, false, not, ◌&&◌, some, none, List,
  [], ◌∷◌, ◌==◌, ==_iff, str_eq, eq_refl, ok, http, bind_inverse, raise_if, is_some,
}
use vehinode.Prelude.Table.{find, any, update_where, find-holds}
use vehinode.Models.{Key, Instant, User, Device, operate, Db}
use vehinode.Access.Policy.{MayUse}
use vehinode.Auth.{current_device}
use vehinode.Devices.{
  get_device, change_device, rotate_device, rotate_credential, revoke_device, authorized_device,
  RotateCredentialResponse,
}
use vehinode.Devices.Settings.{authorized_inverse}

-- Nobody has the hash.
abbrev pub IsUnused : String → List Device → Type 0
IsUnused h devices = any (λ (d : Device). str_eq d.credential_hash h) devices ≡ false

module _ (k : Key) (f : Device → Device) (h : String) where
  -- The row of the key is the only one that takes the new hash.
  find-new_hash :
      (devices : List Device) {d : Device}
      → ((x : Device) → (f x).credential_hash ≡ h)
      → IsUnused h devices
      → find (λ (d : Device). d.id == k) devices ≡ some d
      → find (λ (d : Device). str_eq d.credential_hash h) (update_where (λ d. d.id == k) f devices)
        ≡ some (f d)
  unfolding find any update_where
  find-new_hash [] {d} takes unused found = ground arith
  find-new_hash (x ∷ xs) {d} takes unused found =
      ground (arith, find-new_hash xs {d = d} takes, takes x, eq_refl h)

  -- The old hash, which only that row had, is gone.
  find-old_hash :
      (devices : List Device) (old : String)
      → ((x : Device) → (f x).credential_hash ≡ h)
      → str_eq h old ≡ false
      → any (λ (d : Device). str_eq d.credential_hash old && not (d.id == k)) devices ≡ false
      → find
          (λ (d : Device). str_eq d.credential_hash old)
          (update_where (λ d. d.id == k) f devices)
        ≡ none
  unfolding find any update_where
  find-old_hash [] old takes ne only = refl
  find-old_hash (x ∷ xs) old takes ne only = ground (arith, find-old_hash xs old takes ne, takes x)

-- A row with the hash that only the key's row had is revoked.
find-revoked :
    (k : Key) (old : String) (now : Instant) (devices : List Device)
    → any (λ (d : Device). str_eq d.credential_hash old && not (d.id == k)) devices ≡ false
    → elim (find
        (λ (d : Device). str_eq d.credential_hash old)
        (update_where
          (λ (d : Device). d.id == k)
          (λ d. record d { revoked_at = some now })
          devices)) [ none ↦ true | some d ↦ is_some d.revoked_at ]
      ≡ true
unfolding find any update_where
find-revoked k old now [] only = refl
find-revoked k old now (x ∷ xs) only = ground (arith, find-revoked k old now xs)

module _ (hash_token : String → String) where
  rotate_steps :
      (db : Db) (user : User) (k : Key) (credential : String) (p : RotateCredentialResponse × Db)
      → rotate_device hash_token db user k credential ≡ ok p
      → (device : Device) × (authorized_device db user k operate ≡ ok device)
        × (device.revoked_at ≡ none)
        × (p ≡ (
          record { credential = credential; credential_version = device.credential_version + 1 },
          change_device device.id (rotate_credential hash_token credential) db,
        ))
  unfolding rotate_device rotate_credential
  rotate_steps db user k credential p h =
      let (device, allowed, h₁) = bind_inverse (authorized_device db user k operate) _ h in
      let (live, e, h₂) = bind_inverse (raise_if (is_some device.revoked_at) _) _ h₁ in
      (device, allowed, ground arith, ground arith)

  accepts_new :
      (db : Db) (k : Key) (credential : String) (device : Device)
      → IsUnused (hash_token credential) db.devices
      → get_device db k ≡ some device
      → device.revoked_at ≡ none
      → current_device hash_token
          (change_device k (rotate_credential hash_token credential) db)
          (some credential)
        ≡ ok (rotate_credential hash_token credential device)
  unfolding current_device rotate_credential
  accepts_new db k credential device unused found live = ground (
    arith,
    find-new_hash k (rotate_credential hash_token credential) (hash_token credential) db.devices
        {d = device} (λ x. refl) unused found,
  )

  refuses_old :
      (db : Db) (k : Key) (credential old : String)
      → any
          (λ (d : Device). str_eq d.credential_hash (hash_token old) && not (d.id == k))
          db.devices
        ≡ false
      → str_eq (hash_token credential) (hash_token old) ≡ false
      → current_device hash_token
          (change_device k (rotate_credential hash_token credential) db)
          (some old)
        ≡ http 401 "invalid device credential"
  unfolding current_device rotate_credential
  refuses_old db k credential old only differs = ground (
    arith,
    find-old_hash k (rotate_credential hash_token credential) (hash_token credential) db.devices
        (hash_token old) (λ x. refl) differs only,
  )

  -- A rotation, where the hash of the new credential is unused and the old one is the agent's alone,
  -- makes requests with the new credential those of the agent and refuses those with the old one.
  rotate_device_effect :
      (db : Db) (user : User) (k : Key) (credential old : String)
      (answer : RotateCredentialResponse) (db' : Db)
      → rotate_device hash_token db user k credential ≡ ok (answer, db')
      → IsUnused (hash_token credential) db.devices
      → any
          (λ (d : Device). str_eq d.credential_hash (hash_token old) && not (d.id == k))
          db.devices
        ≡ false
      → str_eq (hash_token credential) (hash_token old) ≡ false
      → (device : Device) × (get_device db k ≡ some device)
        × MayUse db user device.vehicle_id operate
        × (device.revoked_at ≡ none)
        × (answer.credential_version ≡ device.credential_version + 1)
        × (current_device hash_token db' (some answer.credential)
            ≡ ok (rotate_credential hash_token credential device))
        × (current_device hash_token db' (some old) ≡ http 401 "invalid device credential")
  rotate_device_effect db user k credential old answer db' h unused only differs =
      let (device, allowed, live, e) = rotate_steps db user k credential (answer, db') h in
      let (found, may) = authorized_inverse db user k operate device allowed in
      let key : device.id ≡ k =
        (==_iff device.id k).0 (find-holds (λ (d : Device). d.id == k) db.devices found) in
      let f = rotate_credential hash_token credential in
      let after : db' ≡ change_device k f db =
        subst (λ i. db' ≡ change_device i f db) key (ap (λ p. p.1) e) in
      let given : answer.credential ≡ credential = ap (λ p. p.0.credential) e in
      (
        device,
        found,
        may,
        live,
        ap (λ p. p.0.credential_version) e,
        subst₂
            (λ (x : Db) c.
              current_device hash_token x (some c)
              ≡ ok (rotate_credential hash_token credential device))
            (sym after) (sym given) (accepts_new db k credential device unused found live),
        subst
            (λ (x : Db).
              current_device hash_token x (some old) ≡ http 401 "invalid device credential")
            (sym after) (refuses_old db k credential old only differs),
      )

  -- A revocation refuses every later request with the agent's credential, if nobody else has it.
  revoke_device_effect :
      (db : Db) (user : User) (k : Key) (raw : String) (now : Instant) (db' : Db)
      → revoke_device db user k now ≡ ok db'
      → any
          (λ (d : Device). str_eq d.credential_hash (hash_token raw) && not (d.id == k))
          db.devices
        ≡ false
      → current_device hash_token db' (some raw) ≡ http 401 "invalid device credential"
  unfolding current_device revoke_device
  revoke_device_effect db user k raw now db' h only =
      let (device, allowed, h₁) = bind_inverse (authorized_device db user k operate) _ h in
      let (found, _) = authorized_inverse db user k operate device allowed in
      let key : device.id ≡ k =
        (==_iff device.id k).0 (find-holds (λ (d : Device). d.id == k) db.devices found) in
      let at_row : db' ≡ change_device device.id (λ d. record d { revoked_at = some now }) db =
        ground arith in
      rw
        (subst (λ i. db' ≡ change_device i (λ d. record d { revoked_at = some now }) db) key at_row)
        (ground (arith, find-revoked k (hash_token raw) now db.devices only))
