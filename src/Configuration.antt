-- ===== src/Configuration.antt =====
-- agent/vehicle_agent/config.py: the configuration that an agent downloads and keeps. The file is given by
-- the JSON value that it holds, `none` where it cannot be read. `truncate` is `int` of a double, and
-- `is_profile` says which definitions the constructor of VehicleProfileDecoder accepts; of one that it
-- does not accept it is assumed to raise an error that `parse` catches. The digits that `int` reads in
-- a text are the ASCII ones.
mod Stored
mod Installed
mod Tests
use vehinode.Prelude.{
  ℕ, String, Bool, true, false, not, ◌&&◌, ◌||◌, Option, none, some, List, [], ◌∷◌, ◌==◌, ltb, leb,
  str_eq, if◌then◌else◌, Result, ok, err, ◌>>=◌, ◌>>◌, raise_if,
}
use vehinode.Prelude.Int.{ℤ, pos, negsuc}
use vehinode.Json.{
  Double, Json, null, bool, int, float, str, arr, obj, Fields, end, field, get, is_text,
}
use vehinode.Text.{codes, int_decimal}

pub record AgentConfiguration : Type 0 where
  pub version : ℕ
  pub sample_seconds : ℕ
  pub upload_seconds : ℕ
  pub vehicle_profile : Option String
  pub vehicle_profile_definition : Option Fields

-- A ConfigurationError, and the OverflowError of `int(float("inf"))`, which is not caught.
pub data ConfigError : Type 0 where
  configuration_error overflow_error : ConfigError

abbrev pub or_invalid : {A : Type 0} → Option A → Result ConfigError A
or_invalid none = err configuration_error
or_invalid (some a) = ok a

-- `data[key]`; a KeyError or a TypeError is `none`.
abbrev pub subscript : String → Json → Option Json
subscript key (obj fs) = get key fs
subscript key _ = none

-- `int(value)`
unfoldable pub int_of : (Double → Result ConfigError ℤ) → Json → Result ConfigError ℤ
int_of truncate (bool true) = ok (pos 1)
int_of truncate (bool false) = ok (pos 0)
int_of truncate (int n) = ok n
int_of truncate (float d) = truncate d
int_of truncate (str s) = or_invalid (int_decimal (codes s))
int_of truncate _ = err configuration_error

abbrev pub at_least_one : ℤ → Result ConfigError ℕ
at_least_one (pos n) = if ltb n 1 then err configuration_error else ok n
at_least_one (negsuc n) = err configuration_error

abbrev pub seconds_in_bounds : ℤ → Result ConfigError ℕ
seconds_in_bounds (pos n) = if leb 1 n && leb n 86400 then ok n else err configuration_error
seconds_in_bounds (negsuc n) = err configuration_error

abbrev pub profile_of : Option Json → Result ConfigError (Option String)
profile_of none = ok none
profile_of (some null) = ok none
profile_of (some (str s)) = ok (some s)
profile_of (some _) = err configuration_error

-- `profile and definition.get("id") == profile`
abbrev pub is_reference : Option String → Fields → Bool
is_reference none definition = false
is_reference (some profile) definition =
    not (str_eq profile "") && is_text profile (get "id" definition)

abbrev pub definition_of :
    (Fields → Bool) → Option String → Option Json → Result ConfigError (Option Fields)
definition_of is_profile profile none = ok none
definition_of is_profile profile (some null) = ok none
definition_of is_profile profile (some (obj definition)) =
    if is_reference profile definition && is_profile definition
    then ok (some definition)
    else err configuration_error
definition_of is_profile profile (some _) = err configuration_error

abbrev pub seconds_format : ℕ → Json
seconds_format n = obj (field "default_seconds" (int (pos n)) end)

abbrev pub text_or_null : Option String → Json
text_or_null none = null
text_or_null (some s) = str s

abbrev pub object_or_null : Option Fields → Json
object_or_null none = null
object_or_null (some fs) = obj fs

unfoldable pub as_server_format : AgentConfiguration → Json
as_server_format c = obj (
    field "version" (int (pos c.version)) (
      field "sampling" (seconds_format c.sample_seconds) (
        field "upload" (seconds_format c.upload_seconds) (
          field "vehicle_profile" (text_or_null c.vehicle_profile) (
            field "vehicle_profile_definition" (object_or_null c.vehicle_profile_definition)
              end)))))

module _ (truncate : Double → Result ConfigError ℤ) (is_profile : Fields → Bool) where
  -- `int(data[part]["default_seconds"])`
  abbrev pub default_seconds : String → Json → Result ConfigError ℤ
  default_seconds part content = do
    section ← or_invalid (subscript part content)
    value ← or_invalid (subscript "default_seconds" section)
    int_of truncate value

  unfoldable pub parse : Json → Result ConfigError AgentConfiguration
  parse content = do
    version_value ← or_invalid (subscript "version" content)
    version ← int_of truncate version_value
    sample ← default_seconds "sampling" content
    upload ← default_seconds "upload" content
    version_number ← at_least_one version
    sample_seconds ← seconds_in_bounds sample
    upload_seconds ← seconds_in_bounds upload
    profile ← profile_of (subscript "vehicle_profile" content)
    definition ← definition_of is_profile profile (subscript "vehicle_profile_definition" content)
    ok (record {
      version = version_number;
      sample_seconds = sample_seconds;
      upload_seconds = upload_seconds;
      vehicle_profile = profile;
      vehicle_profile_definition = definition;
    })

  unfoldable pub load : Option Json → Result ConfigError AgentConfiguration
  unfolding parse
  load none = err configuration_error
  load (some content) = parse content

  -- The answer, and the file afterwards.
  unfoldable pub install_if_newer :
      Json → Option Json → Result ConfigError AgentConfiguration × Option Json
  unfolding load parse as_server_format
  install_if_newer content file = elim (parse content) [
    | err e ↦ (err e, file)
    | ok candidate ↦ elim (load file) [
      | err overflow_error ↦ (err overflow_error, file)
      | err configuration_error ↦ (ok candidate, some (as_server_format candidate))
      | ok current ↦
          if ltb candidate.version current.version
          then (err configuration_error, file)
          else if candidate.version == current.version
          then (ok current, file)
          else (ok candidate, some (as_server_format candidate))
    ]
  ]

  -- The configurations that are downloaded one after the other.
  unfoldable pub install_each : List Json → Option Json → Option Json
  unfolding install_if_newer
  install_each [] file = file
  install_each (content ∷ contents) file = install_each contents (install_if_newer content file).1
