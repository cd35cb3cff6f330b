-- ===== src/Configuration/Tests.antt =====
-- The theorems on configurations at a file and three downloads.
use vehinode.Prelude.{ℕ, ◌≡◌, refl, Bool, true, none, some, List, [], ◌∷◌, Result, ok, err}
use vehinode.Prelude.Int.{ℤ, pos}
use vehinode.Json.{Double, Json, null, int, obj, Fields, end, field, get}
use vehinode.Text.{int_decimal, signed_decimal, number, strip, lstrip, rstrip, is_space, digit}
use vehinode.Configuration.{
  AgentConfiguration, ConfigError, configuration_error, int_of, parse, as_server_format, load,
  install_if_newer, install_each,
}
use vehinode.Configuration.Stored.{parse-as_server_format}
use vehinode.Configuration.Installed.{IsLater, install_each-IsLater}

abbrev no_doubles : Double → Result ConfigError ℤ
no_doubles d = err configuration_error

abbrev any_profile : Fields → Bool
any_profile fs = true

abbrev configuration : ℕ → AgentConfiguration
configuration version = record {
  version = version;
  sample_seconds = 5;
  upload_seconds = 60;
  vehicle_profile = none;
  vehicle_profile_definition = none;
}

abbrev sampling : Json
sampling = obj (field "default_seconds" (Json.str " 5 ") end)

-- A download that gives the seconds as a text and leaves out the profile.
abbrev download : ℕ → Json
download version = obj (
    field "version" (int (pos version)) (
      field "sampling" sampling
        (field "upload" (obj (field "default_seconds" (int (pos 60)) end)) end)))

accepted : parse no_doubles any_profile (download 2) ≡ ok (configuration 2)
unfolding parse int_of get int_decimal signed_decimal number strip lstrip rstrip is_space digit
accepted = refl

parse-as_server_format_example :
    parse no_doubles any_profile (as_server_format (configuration 2)) ≡ ok (configuration 2)
parse-as_server_format_example =
    parse-as_server_format no_doubles any_profile (download 2) (configuration 2) accepted

stored : load no_doubles any_profile (some (download 2)) ≡ ok (configuration 2)
unfolding load
stored = accepted

-- An older download, a newer one, and one that is no configuration.
abbrev downloads : List Json
downloads = download 1 ∷ download 3 ∷ null ∷ []

install_each-IsLater_example :
    (new : AgentConfiguration) × (load no_doubles any_profile
        (install_each no_doubles any_profile downloads (some (download 2)))
      ≡ ok new)
    × IsLater (configuration 2) new
install_each-IsLater_example =
    install_each-IsLater no_doubles any_profile downloads (some (download 2)) (configuration 2)
      stored

newest :
    install_each no_doubles any_profile downloads (some (download 2))
    ≡ some (as_server_format (configuration 3))
unfolding install_each install_if_newer load as_server_format parse int_of get int_decimal
    signed_decimal number strip lstrip rstrip is_space digit
newest = refl
