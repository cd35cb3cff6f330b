-- ===== src/Obd/Provider.antt =====
-- The PIDs of agent/vehicle_agent/providers/standard_obd.py, and a round of its provider. An answer of
-- `query` is `none` where the adapter raises an AdapterError or an OSError. `rounded` is the value that
-- `round` returns, of a quotient of two numbers as doubles.
use vehinode.Prelude.{
  ℕ, ◌+◌, ◌*◌, String, Bool, true, false, Option, none, some, List, [], ◌∷◌, ◌==◌, if◌then◌else◌,
}
use vehinode.Prelude.Table.{find}
use vehinode.Prelude.Int.{ℤ, sub_ℕ}
use vehinode.Json.{Json, Fields, end, set}
use vehinode.Text.{Text}
use vehinode.Obd.{parse_obd_response}

-- What a decoder computes: the quotient of two numbers, or an integer.
pub data Value : Type 0 where
  quotient : ℕ → ℕ → Value
  whole : ℤ → Value

-- The first byte; a ValueError is `none`.
abbrev pub one_byte : (ℕ → Value) → List ℕ → Option Value
one_byte f [] = none
one_byte f (a ∷ rest) = some (f a)

-- The number of the first two bytes.
abbrev pub two_bytes : (ℕ → Value) → List ℕ → Option Value
two_bytes f [] = none
two_bytes f (a ∷ []) = none
two_bytes f (a ∷ b ∷ rest) = some (f (a * 256 + b))

pub record PidDecoder : Type 0 where
  pub pid : ℕ
  pub name : String
  pub decoder : List ℕ → Option Value
  pub unit : String

abbrev pub percent : ℕ → Value
percent a = quotient (a * 100) 255

abbrev pub temperature : ℕ → Value
temperature a = whole (sub_ℕ a 40)

abbrev pub decoder_of : ℕ → String → (List ℕ → Option Value) → String → PidDecoder
decoder_of pid name decoder unit = record { pid = pid; name = name; decoder = decoder; unit = unit }

abbrev pub pid_decoders : List PidDecoder
pid_decoders =
    decoder_of 0x04 "engine.load" (one_byte percent) "%"
    ∷ decoder_of 0x05 "engine.coolant_temperature" (one_byte temperature) "°C"
    ∷ decoder_of 0x0C "engine.rpm" (two_bytes (λ n. quotient n 4)) "rpm"
    ∷ decoder_of 0x0D "vehicle.speed" (one_byte (λ a. quotient a 1)) "km/h"
    ∷ decoder_of 0x0F "engine.intake_temperature" (one_byte temperature) "°C"
    ∷ decoder_of 0x10 "engine.maf" (two_bytes (λ n. quotient n 100)) "g/s"
    ∷ decoder_of 0x11 "engine.throttle" (one_byte percent) "%"
    ∷ decoder_of 0x2F "fuel.level" (one_byte percent) "%"
    ∷ decoder_of 0x42 "device.input_voltage" (two_bytes (λ n. quotient n 1000)) "V"
    ∷ []

-- A ValueError of the decoder, or the name, the value and the unit, if the PID is known.
pub data Decoded : Type 0 where
  unknown value_error : Decoded
  decoded : String → Value → String → Decoded

abbrev pub decode_with : PidDecoder → List ℕ → Decoded
decode_with d content = elim (d.decoder content) [
  | none ↦ value_error
  | some value ↦ decoded d.name value d.unit
]

abbrev pub decode_found : Option PidDecoder → List ℕ → Decoded
decode_found none content = unknown
decode_found (some d) content = decode_with d content

unfoldable pub decode_standard_pid : ℕ → List ℕ → Decoded
decode_standard_pid pid content = decode_found (find (λ d. d.pid == pid) pid_decoders) content

-- The state of the loop: the metrics so far; with an adapter that failed; or a ValueError.
pub data Gathering : Type 0 where
  going interrupted : Fields → Gathering
  failed : Gathering

-- How connecting to the adapter ends: with an AdapterError, which is caught, or with a SerialException.
pub data Connection : Type 0 where
  opens adapter_fails port_fails : Connection

module _ (rounded : Value → Json) (query : ℕ → Option (List Text)) where
  abbrev pub add_metric : Decoded → Fields → Gathering
  add_metric unknown metrics = going metrics
  add_metric value_error metrics = failed
  add_metric (decoded name value unit) metrics = going (set name (rounded value) metrics)

  abbrev pub add_answer : ℕ → Option (List ℕ) → Fields → Gathering
  add_answer pid none metrics = going metrics
  add_answer pid (some raw) metrics = add_metric (decode_standard_pid pid raw) metrics

  -- One round of the loop, for one PID.
  unfoldable pub read_pid : ℕ → Fields → Gathering
  unfolding decode_standard_pid parse_obd_response
  read_pid pid metrics = elim (query pid) [
    | none ↦ interrupted metrics
    | some lines ↦ add_answer pid (parse_obd_response 1 pid lines) metrics
  ]

  unfoldable pub read_pids : List PidDecoder → Fields → Gathering
  unfolding read_pid
  read_pids [] metrics = going metrics
  read_pids (d ∷ ds) metrics = elim (read_pid d.pid metrics) [
    | going more ↦ read_pids ds more
    | interrupted metrics' ↦ interrupted metrics'
    | failed ↦ failed
  ]

  -- The metrics, `none` where the call raises an exception, and whether the adapter is connected.
  abbrev pub after_reading : Gathering → Option Fields × Bool
  after_reading (going metrics) = (some metrics, true)
  after_reading (interrupted metrics) = (some metrics, false)
  after_reading failed = (none, true)

  abbrev pub connect_first : Connection → Option Fields × Bool → Option Fields × Bool
  connect_first opens reading = reading
  connect_first adapter_fails reading = (some end, false)
  connect_first port_fails reading = (none, false)

  unfoldable pub read_metrics : Connection → Bool → Option Fields × Bool
  unfolding read_pids
  read_metrics connection connected =
      let reading = after_reading (read_pids pid_decoders end) in
      if connected then reading else connect_first connection reading
