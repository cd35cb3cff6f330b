-- ===== src/Devices/Enrollment.antt =====
-- `enroll` of backend/app/devices/services.py and the one-time tokens that it uses up.
use vehinode.Prelude.{
  String, ◌≡◌, refl, sym, ap, arith, true, false, Option, some, none, List, [], ◌∷◌, ◌++◌, ◌==◌,
  str_eq, bind_inverse, ==_refl, ltb, ok, err,
}
use vehinode.Prelude.Table.{update_where, find-update_where-some}
use vehinode.Json.{Fields}
use vehinode.Models.{Key, Instant, Vehicle, EnrollmentToken, Device, Db}
use vehinode.Access.{get_vehicle}
use vehinode.Profiles.{profile_definition}
use vehinode.Devices.{
  EnrollRequest, EnrollResponse, enroll, usable_token, find_token, is_usable, enrolled_device,
  device_config, enrollment_error, invalid_token, existing_vehicle,
}

module _ (hash_token : String → String) (built_ins : Key → Option Fields) where
  abbrev mark_used : Key → Instant → List EnrollmentToken → List EnrollmentToken
  mark_used k now tokens =
      update_where (λ (t : EnrollmentToken). t.id == k) (λ t. record t { used_at = some now })
        tokens

  usable_inverse :
      (now : Instant) (o : Option EnrollmentToken) (token : EnrollmentToken)
      → usable_token now o ≡ ok token
      → (o ≡ some token) × (is_usable now token ≡ true)
  unfolding usable_token
  usable_inverse now none token h = absurd (ground arith)
  usable_inverse now (some t) token h = ground arith

  existing_inverse :
      (o : Option Vehicle) (vehicle : Vehicle) → existing_vehicle o ≡ ok vehicle → o ≡ some vehicle
  existing_inverse o vehicle h = ground arith

  module _ (db : Db) (request : EnrollRequest) (id : Key) (credential : String)
      (now : Instant) where
    abbrev new_device : EnrollmentToken → Vehicle → Device
    new_device token vehicle = enrolled_device hash_token request token vehicle.id id credential now

    -- The token is used, and the device is new.
    abbrev enrolled : EnrollmentToken → Vehicle → Db
    enrolled token vehicle = record db {
      tokens = mark_used token.id now db.tokens;
      devices = db.devices ++ new_device token vehicle ∷ [];
    }

    -- What a successful enrollment has found and done.
    pub enroll_inverse :
        (r : EnrollResponse) (db' : Db)
        → enroll hash_token built_ins db request id credential now ≡ ok (r, db')
        → (token : EnrollmentToken) × (vehicle : Vehicle) × (find_token db.tokens
              (hash_token request.token)
            ≡ some token)
          × (is_usable now token ≡ true)
          × (get_vehicle db token.vehicle_id ≡ some vehicle)
          × (db' ≡ enrolled token vehicle)
          × (device_config built_ins (enrolled token vehicle) (new_device token vehicle) vehicle
              ≡ ok r.config)
          × (r.device_id ≡ id)
          × (r.vehicle_id ≡ vehicle.id)
          × (r.credential ≡ credential)
    unfolding enroll enrolled_device
    enroll_inverse r db' h =
        let (token, valid, h₁) =
          bind_inverse (usable_token now (find_token db.tokens (hash_token request.token))) _ h in
        let (vehicle, there, h₂) =
          bind_inverse (existing_vehicle (get_vehicle db token.vehicle_id)) _ h₁ in
        let (found, usable) =
          usable_inverse now (find_token db.tokens (hash_token request.token)) token valid in
        (
          token,
          vehicle,
          found,
          usable,
          existing_inverse (get_vehicle db token.vehicle_id) vehicle there,
          ground arith,
          ground arith,
          ground arith,
          ground arith,
          ground arith,
        )

  used_invalid :
      (later : Instant) (o : Option EnrollmentToken) (token : EnrollmentToken) (used : Instant)
      → o ≡ some token
      → token.used_at ≡ some used
      → usable_token later o ≡ err (enrollment_error invalid_token)
  unfolding usable_token
  used_invalid later none token used e u = absurd (ground arith)
  used_invalid later (some t) token used e u = ground arith

  find-mark_used :
      (tokens : List EnrollmentToken) (token_hash : String) (now : Instant)
      {token : EnrollmentToken}
      → find_token tokens token_hash ≡ some token
      → find_token (mark_used token.id now tokens) token_hash
        ≡ some (record token { used_at = some now })
  find-mark_used tokens token_hash now {token} found = ground (
    arith,
    find-update_where-some (λ (t : EnrollmentToken). str_eq t.token_hash token_hash)
        (λ t. t.id == token.id) (λ t. record t { used_at = some now }) tokens {a = token}
        (λ t. refl) found,
    ==_refl token.id,
  )

  -- A token enrolls one agent: once an enrollment has succeeded, every other with the same token, by
  -- whichever host and at whatever time, is refused.
  pub enroll_once :
      (db : Db) (request other : EnrollRequest) (id other_id : Key)
      (credential other_credential : String) (now later : Instant) (r : EnrollResponse) (db' : Db)
      → enroll hash_token built_ins db request id credential now ≡ ok (r, db')
      → other.token ≡ request.token
      → enroll hash_token built_ins db' other other_id other_credential later
        ≡ err (enrollment_error invalid_token)
  unfolding enroll
  enroll_once db request other id other_id credential other_credential now later r db' h same =
      let (token, _, found, _, _, e, _, _, _, _) =
        enroll_inverse db request id credential now r db' h in
      let tokens : db'.tokens ≡ mark_used token.id now db.tokens = ap (λ (x : Db). x.tokens) e in
      rw
        (used_invalid later (find_token db'.tokens (hash_token other.token))
          (record token { used_at = some now }) now
          (rw (tokens, same) (find-mark_used db.tokens (hash_token request.token) now found)) refl)
        refl

  -- A successful enrollment used a token that nobody had used and that had not expired, and added an
  -- agent to the vehicle of the token: it is stored with the name and the cadences of the token and
  -- with the hash of the credential that the answer hands out, and the configuration in the answer
  -- has the cadences of the token, at version 1.
  enroll_effect :
      (db : Db) (request : EnrollRequest) (id : Key) (credential : String) (now : Instant)
      (r : EnrollResponse) (db' : Db)
      → enroll hash_token built_ins db request id credential now ≡ ok (r, db')
      → (token : EnrollmentToken) × (device : Device) × (find_token db.tokens
            (hash_token request.token)
          ≡ some token)
        × (token.used_at ≡ none)
        × (ltb token.expires_at now ≡ false)
        × (db'.devices ≡ db.devices ++ device ∷ [])
        × (device.id ≡ r.device_id)
        × (device.name ≡ token.intended_name)
        × (device.credential_hash ≡ hash_token r.credential)
        × (r.config.version ≡ 1)
        × (r.config.sampling.default_seconds ≡ token.sampling_seconds)
        × (r.config.upload.default_seconds ≡ token.upload_seconds)
        × (r.config.sampling.parked_seconds ≡ token.parked_sampling_seconds)
        × (r.config.upload.parked_seconds ≡ token.parked_upload_seconds)
  unfolding enrolled_device device_config
  enroll_effect db request id credential now r db' h =
      let (token, vehicle, found, usable, there, e, built, key, of, given) =
        enroll_inverse db request id credential now r db' h in
      let (definition, _, config) =
        bind_inverse (profile_definition built_ins _ vehicle.vehicle_profile) _ built in
      (
        token,
        new_device db request id credential now token vehicle,
        found,
        ground arith,
        ground arith,
        ap (λ (x : Db). x.devices) e,
        sym key,
        refl,
        ap hash_token (sym given),
        ground arith,
        ground arith,
        ground arith,
        ground arith,
        ground arith,
      )
