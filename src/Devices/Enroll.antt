-- ===== src/Devices/Enroll.antt =====
-- The configuration of an agent and its enrollment, in backend/app/devices/services.py and schemas.py.
use vehinode.Prelude.{
  ℕ, ◌+◌, ◌*◌, String, Bool, not, ◌&&◌, Option, none, some, List, [], ◌∷◌, ◌++◌, ◌==◌, ltb, str_eq,
  is_none, if◌then◌else◌, Result, ok, err, HttpError, http, ◌>>=◌,
}
use vehinode.Prelude.Table.{find, update_where}
use vehinode.Json.{Fields}
use vehinode.Models.{Key, Instant, seconds, Vehicle, Device, EnrollmentToken, Db}
use vehinode.Access.{get_vehicle}
use vehinode.Profiles.{profile_definition}

pub record EnrollmentCreate : Type 0 where
  pub name : String
  pub ttl_minutes : ℕ
  pub sampling_seconds : ℕ
  pub upload_seconds : ℕ
  pub parked_sampling_seconds : ℕ
  pub parked_upload_seconds : ℕ

pub record EnrollRequest : Type 0 where
  pub token : String
  pub agent_version : String
  pub hostname : String
  pub hardware : Fields

-- The keys "default_seconds" and "parked_seconds".
pub record Cadence : Type 0 where
  pub default_seconds : ℕ
  pub parked_seconds : ℕ

pub record DeviceConfig : Type 0 where
  pub version : ℕ
  pub sampling : Cadence
  pub upload : Cadence
  pub vehicle_profile : Option Key
  pub vehicle_profile_definition : Option Fields

pub record EnrollResponse : Type 0 where
  pub device_id : Key
  pub vehicle_id : Key
  pub credential : String
  pub config : DeviceConfig

-- `EnrollmentError`, or another exception, which the route does not catch.
pub data EnrollmentFailure : Type 0 where
  enrollment_error unexpected : String → EnrollmentFailure

unfoldable pub device_config :
    (Key → Option Fields) → Db → Device → Vehicle → Result String DeviceConfig
device_config built_ins db device vehicle = do
  definition ← profile_definition built_ins db vehicle.vehicle_profile
  ok (record {
    version = device.config_version;
    sampling = record {
      default_seconds = device.sampling_seconds;
      parked_seconds = device.parked_sampling_seconds;
    };
    upload = record {
      default_seconds = device.upload_seconds;
      parked_seconds = device.parked_upload_seconds;
    };
    vehicle_profile = vehicle.vehicle_profile;
    vehicle_profile_definition = definition;
  })

unfoldable pub create_enrollment :
    (String → String)
    → Db
    → Vehicle
    → EnrollmentCreate
    → Key
    → String
    → Instant
    → EnrollmentToken × Db
create_enrollment hash_token db vehicle request id raw now =
    let model : EnrollmentToken = record {
      id = id;
      token_hash = hash_token raw;
      vehicle_id = vehicle.id;
      intended_name = request.name;
      created_at = now;
      expires_at = now + seconds (60 * request.ttl_minutes);
      used_at = none;
      sampling_seconds = request.sampling_seconds;
      upload_seconds = request.upload_seconds;
      parked_sampling_seconds = request.parked_sampling_seconds;
      parked_upload_seconds = request.parked_upload_seconds;
    } in
    (model, record db { tokens = db.tokens ++ model ∷ [] })

abbrev pub find_token : List EnrollmentToken → String → Option EnrollmentToken
find_token tokens token_hash = find (λ (t : EnrollmentToken). str_eq t.token_hash token_hash) tokens

-- A token that may be used now.
abbrev pub is_usable : Instant → EnrollmentToken → Bool
is_usable now token = is_none token.used_at && not (ltb token.expires_at now)

abbrev pub invalid_token : String
invalid_token = "enrollment token is invalid, expired, or already used"

-- The token that passes the first test of `enroll`.
unfoldable pub usable_token :
    Instant → Option EnrollmentToken → Result EnrollmentFailure EnrollmentToken
usable_token now none = err (enrollment_error invalid_token)
usable_token now (some token) =
    if is_usable now token then ok token else err (enrollment_error invalid_token)

abbrev pub existing_vehicle : Option Vehicle → Result EnrollmentFailure Vehicle
existing_vehicle none = err (enrollment_error "vehicle no longer exists")
existing_vehicle (some vehicle) = ok vehicle

-- The columns that the call does not set have the defaults of the table.
unfoldable pub enrolled_device :
    (String → String) → EnrollRequest → EnrollmentToken → Key → Key → String → Instant → Device
enrolled_device hash_token request token vehicle_id id credential now = record {
  id = id;
  vehicle_id = vehicle_id;
  name = token.intended_name;
  credential_hash = hash_token credential;
  credential_version = 1;
  agent_version = some request.agent_version;
  hostname = some request.hostname;
  hardware = request.hardware;
  last_seen_at = none;
  last_config_sync_at = none;
  config_version = 1;
  sampling_seconds = token.sampling_seconds;
  upload_seconds = token.upload_seconds;
  parked_sampling_seconds = token.parked_sampling_seconds;
  parked_upload_seconds = token.parked_upload_seconds;
  revoked_at = none;
  created_at = now;
}

-- An exception that only the framework handles.
abbrev pub uncaught : {A : Type 0} → Result String A → Result EnrollmentFailure A
uncaught (ok a) = ok a
uncaught (err e) = err (unexpected e)

unfoldable pub enroll :
    (String → String)
    → (Key → Option Fields)
    → Db
    → EnrollRequest
    → Key
    → String
    → Instant
    → Result EnrollmentFailure (EnrollResponse × Db)
enroll hash_token built_ins db request id credential now = do
  token ← usable_token now (find_token db.tokens (hash_token request.token))
  vehicle ← existing_vehicle (get_vehicle db token.vehicle_id)
  let device = enrolled_device hash_token request token vehicle.id id credential now
  let db' = record db {
    tokens =
        update_where (λ (t : EnrollmentToken). t.id == token.id)
          (λ t. record t { used_at = some now }) db.tokens;
    devices = db.devices ++ device ∷ [];
  }
  config ← uncaught (device_config built_ins db' device vehicle)
  ok (
    record {
      device_id = device.id;
      vehicle_id = vehicle.id;
      credential = credential;
      config = config;
    },
    db',
  )

abbrev pub enrollment_answer : {A : Type 0} → Result EnrollmentFailure A → Result HttpError A
enrollment_answer (ok a) = ok a
enrollment_answer (err (enrollment_error message)) = http 400 message
enrollment_answer (err (unexpected message)) = http 500 "Internal Server Error"

unfoldable pub enroll_device :
    (String → String)
    → (Key → Option Fields)
    → Db
    → EnrollRequest
    → Key
    → String
    → Instant
    → Result HttpError (EnrollResponse × Db)
enroll_device hash_token built_ins db request id credential now =
    enrollment_answer (enroll hash_token built_ins db request id credential now)
