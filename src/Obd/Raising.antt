-- ===== src/Obd/Raising.antt =====
-- When a round of the provider of agent/vehicle_agent/providers/standard_obd.py ends with an exception.
use vehinode.Prelude.{
  ℕ, ◌≡◌, refl, sym, arith, Bool, true, false, not, ◌&&◌, ◌||◌, Option, none, some, List, [], ◌∷◌,
  is_none, is_some, if◌then◌else◌, Option-cases, inl, inr, ◌⊎◌, subst, subst₂, String, ltb, length,
  ◌==◌, All,
}
use vehinode.Prelude.Table.{any, find}
use vehinode.Json.{Json, Fields, end, set}
use vehinode.Text.{Text}
use vehinode.Obd.{parse_obd_response}
use vehinode.Obd.Provider.{
  Value, PidDecoder, pid_decoders, decoder_of, decode_with, one_byte, two_bytes,
  decode_standard_pid, quotient, percent, temperature, Decoded, unknown, value_error, decoded,
  Gathering, going, failed, add_metric, add_answer, read_pid, read_pids, after_reading,
  connect_first, Connection, opens, adapter_fails, port_fails, read_metrics,
}

abbrev pub is_error : Decoded → Bool
is_error value_error = true
is_error _ = false

abbrev pub is_failed : Gathering → Bool
is_failed failed = true
is_failed _ = false

abbrev pub is_port_failure : Connection → Bool
is_port_failure port_fails = true
is_port_failure _ = false

abbrev pub is_open : Connection → Bool
is_open opens = true
is_open _ = false

-- The engine speed, the mass of air and the voltage have two bytes, the other values have one.
abbrev pub bytes_of : ℕ → ℕ
bytes_of pid = if (pid == 0x0C) || (pid == 0x10) || (pid == 0x42) then 2 else 1

-- The decoder of a PID raises a ValueError exactly on fewer bytes than these.
abbrev IsSized : PidDecoder → Type 0
IsSized d =
    (raw : List ℕ) → is_error (decode_standard_pid d.pid raw) ≡ ltb (length raw) (bytes_of d.pid)

sized_one :
    (name : String) (f : ℕ → Value) (unit : String) (pid : ℕ) (raw : List ℕ)
    → is_error (decode_with (decoder_of pid name (one_byte f) unit) raw) ≡ ltb (length raw) 1
sized_one name f unit pid [] = refl
sized_one name f unit pid (a ∷ raw) = ground arith

sized_two :
    (name : String) (f : ℕ → Value) (unit : String) (pid : ℕ) (raw : List ℕ)
    → is_error (decode_with (decoder_of pid name (two_bytes f) unit) raw) ≡ ltb (length raw) 2
sized_two name f unit pid [] = refl
sized_two name f unit pid (a ∷ []) = refl
sized_two name f unit pid (a ∷ b ∷ raw) = ground arith

pid_decoders-AreSized : All IsSized pid_decoders
unfolding decode_standard_pid find
pid_decoders-AreSized = (
  sized_one "engine.load" percent "%" 0x04,
  (
    sized_one "engine.coolant_temperature" temperature "°C" 0x05,
    (
      sized_two "engine.rpm" (λ n. quotient n 4) "rpm" 0x0C,
      (
        sized_one "vehicle.speed" (λ a. quotient a 1) "km/h" 0x0D,
        (
          sized_one "engine.intake_temperature" temperature "°C" 0x0F,
          (
            sized_two "engine.maf" (λ n. quotient n 100) "g/s" 0x10,
            (
              sized_one "engine.throttle" percent "%" 0x11,
              (
                sized_one "fuel.level" percent "%" 0x2F,
                (sized_two "device.input_voltage" (λ n. quotient n 1000) "V" 0x42, tt),
              ),
            ),
          ),
        ),
      ),
    ),
  ),
)

module _ (rounded : Value → Json) (query : ℕ → Option (List Text)) where
  -- An answer is found, and it holds fewer bytes than its PID has.
  abbrev pub short_answer : ℕ → Option (List ℕ) → Bool
  short_answer pid none = false
  short_answer pid (some raw) = ltb (length raw) (bytes_of pid)

  abbrev pub is_short : PidDecoder → Bool
  is_short d = elim (query d.pid) [
    | none ↦ false
    | some lines ↦ short_answer d.pid (parse_obd_response 1 d.pid lines)
  ]

  abbrev Added : Bool → Gathering → Type 0
  Added short reading =
      ((short ≡ true) × (reading ≡ failed))
      ⊎ ((more : Fields) × (short ≡ false) × (reading ≡ going more))

  add_metric-Added :
      (d : Decoded) (metrics : Fields) → Added (is_error d) (add_metric rounded query d metrics)
  add_metric-Added unknown metrics = inr (metrics, refl, refl)
  add_metric-Added value_error metrics = inl (refl, refl)
  add_metric-Added (decoded name value unit) metrics =
      inr (set name (rounded value) metrics, refl, refl)

  add_answer-Added :
      (d : PidDecoder) (answer : Option (List ℕ)) (metrics : Fields)
      → IsSized d
      → Added (short_answer d.pid answer) (add_answer rounded query d.pid answer metrics)
  add_answer-Added d none metrics sized = inr (metrics, refl, refl)
  add_answer-Added d (some raw) metrics sized =
      subst (λ short. Added short (add_answer rounded query d.pid (some raw) metrics)) (sized raw)
        (add_metric-Added (decode_standard_pid d.pid raw) metrics)

  read_pid-Added :
      (d : PidDecoder) (metrics : Fields)
      → IsSized d
      → is_some (query d.pid) ≡ true
      → Added (is_short d) (read_pid rounded query d.pid metrics)
  unfolding read_pid
  read_pid-Added d metrics sized answered = elim (Option-cases (query d.pid)) [
    | inl silent ↦ absurd (ground arith)
    | inr (lines, e) ↦
        let short : is_short d ≡ short_answer d.pid (parse_obd_response 1 d.pid lines) =
          ground arith in
        let read : read_pid rounded query d.pid metrics
            ≡ add_answer rounded query d.pid (parse_obd_response 1 d.pid lines) metrics =
          ground arith in
        subst₂ Added (sym short) (sym read)
          (add_answer-Added d (parse_obd_response 1 d.pid lines) metrics sized)
  ]

  read_pids-failed :
      ((pid : ℕ) → is_some (query pid) ≡ true)
      → (ds : List PidDecoder) (metrics : Fields) → All IsSized ds
      → is_failed (read_pids rounded query ds metrics) ≡ any is_short ds
  unfolding read_pids any
  read_pids-failed answered [] metrics sized = refl
  read_pids-failed answered (d ∷ ds) metrics sized =
      elim (read_pid-Added d metrics sized.0 (answered d.pid)) [
        | inl (short, e) ↦ ground arith
        | inr (more, whole, e) ↦ ground (arith, read_pids-failed answered ds more sized.1)
      ]

  after-failure :
      (reading : Gathering) (short : Bool) (connection : Connection) (connected : Bool)
      → is_failed reading ≡ short
      → is_none
          (if connected
            then after_reading rounded query reading
            else connect_first rounded query connection (after_reading rounded query reading)).0
        ≡ ((not connected && is_port_failure connection)
            || ((connected || is_open connection) && short))
  after-failure reading short opens connected h = ground arith
  after-failure reading short adapter_fails connected h = ground arith
  after-failure reading short port_fails connected h = ground arith

  -- If the adapter answers every request, a round of the provider ends with an exception exactly when it
  -- first has to open the port and the port cannot be opened, or when it is connected and one of the
  -- answers holds fewer bytes than its PID has: two for 0C, 10 and 42, one for the six others.
  pub read_metrics_raises :
      (connection : Connection) (connected : Bool)
      → ((pid : ℕ) → is_some (query pid) ≡ true)
      → is_none (read_metrics rounded query connection connected).0 ≡ (
          (not connected && is_port_failure connection)
          || ((connected || is_open connection) && any is_short pid_decoders))
  unfolding read_metrics
  read_metrics_raises connection connected answered =
      after-failure (read_pids rounded query pid_decoders end) (any is_short pid_decoders)
        connection connected (read_pids-failed answered pid_decoders end pid_decoders-AreSized)
