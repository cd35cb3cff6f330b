-- ===== src/Can/Metrics.antt =====
-- The metrics of a vehicle: `decode` of agent/vehicle_agent/profile_decoder.py and the provider of
-- agent/vehicle_agent/providers/raw_can.py. Metrics are a dictionary of JSON values.
use vehinode.Prelude.{
  String, Bool, true, false, not, ◌&&◌, Option, none, some, List, [], ◌∷◌, ◌++◌, ◌==◌,
  if◌then◌else◌, Result, ok, err,
}
use vehinode.Prelude.Table.{select}
use vehinode.Prelude.Int.{pos}
use vehinode.Json.{Double, Json, int, float, bool, Fields, get, set}
use vehinode.Can.{CanFrame, FrameError, adapter_error, value_error}
use vehinode.Can.Decoder.{Doubles, Signal, Decoded, decode_signal}

pub record ComputedMetric : Type 0 where
  pub name : String
  pub left : String
  pub right : String
  pub scale : Double
  pub unit : Option String

pub record DecodedSignal : Type 0 where
  pub name : String
  pub value : Json
  pub unit : Option String

-- A profile: its signals, which the constructor groups by their identifier, and the products.
pub record Profile : Type 0 where
  pub signals : List Signal
  pub computed : List ComputedMetric

-- `current` and `decoded` of `decode`.
pub record Decoding : Type 0 where
  pub current : Fields
  pub decoded : List DecodedSignal

unfoldable pub add_signal : Decoding → Signal → Decoded Json → Decoding
add_signal state signal (err message) = state
add_signal state signal (ok value) = record {
  current = set signal.name value state.current;
  decoded = state.decoded ++ record { name = signal.name; value = value; unit = signal.unit } ∷ [];
}

unfoldable pub add_signals : Doubles → CanFrame → List Signal → Decoding → Decoding
unfolding add_signal
add_signals a frame [] state = state
add_signals a frame (signal ∷ signals) state =
    add_signals a frame signals (add_signal state signal (decode_signal a signal frame.payload))

-- `float(value)` of what is an instance of `int` or `float`, as a Boolean is.
unfoldable pub as_double : Doubles → Json → Option Double
as_double a (int n) = some (a.of_int n)
as_double a (float d) = some d
as_double a (bool true) = some (a.of_int (pos 1))
as_double a (bool false) = some (a.of_int (pos 0))
as_double a _ = none

abbrev pub input : Doubles → Fields → String → Option Double
unfolding as_double
input a current name = elim (get name current) [ none ↦ none | some value ↦ as_double a value ]

unfoldable pub add_product : Doubles → ComputedMetric → Decoding → Decoding
unfolding as_double
add_product a metric state = elim (input a state.current metric.left) [
  | none ↦ state
  | some left ↦ elim (input a state.current metric.right) [
    | none ↦ state
    | some right ↦
        let value = float (a.multiply (a.multiply left right) metric.scale) in
        record {
          current = set metric.name value state.current;
          decoded =
              state.decoded
              ++ record { name = metric.name; value = value; unit = metric.unit } ∷ [];
        }
  ]
]

unfoldable pub add_products : Doubles → List ComputedMetric → Decoding → Decoding
unfolding add_product
add_products a [] state = state
add_products a (metric ∷ metrics) state = add_products a metrics (add_product a metric state)

unfoldable pub decode : Doubles → Profile → CanFrame → Fields → List DecodedSignal
unfolding add_signals add_products
decode a profile frame metrics =
    (add_products a profile.computed (
      add_signals a frame (select (λ (s : Signal). s.can_id == frame.can_id) profile.signals)
        (record { current = metrics; decoded = [] }))).decoded

unfoldable pub update : Fields → List DecodedSignal → Fields
update metrics [] = metrics
update metrics (d ∷ ds) = update (set d.name d.value metrics) ds

unfoldable pub update_all : Doubles → Profile → List CanFrame → Fields → Fields
unfolding decode update
update_all a profile [] metrics = metrics
update_all a profile (frame ∷ frames) metrics =
    update_all a profile frames (update metrics (decode a profile frame metrics))

pub record Provider : Type 0 where
  pub profile : Profile
  pub connected : Bool
  pub metrics : Fields

-- What the adapter does: whether it connects, and what its monitor returns or raises.
pub record Adapter : Type 0 where
  pub connects : Bool
  pub monitored : Result FrameError (List CanFrame)

abbrev pub listen :
    Doubles → Result FrameError (List CanFrame) → Provider → Result FrameError Fields × Provider
unfolding update_all
listen a (ok frames) p =
    let metrics = update_all a p.profile frames p.metrics in
    (ok metrics, record p { connected = true; metrics = metrics })
listen a (err adapter_error) p = (ok p.metrics, record p { connected = false })
listen a (err value_error) p = (err value_error, record p { connected = true })

-- A ValueError reaches the caller.
unfoldable pub read_metrics : Doubles → Adapter → Provider → Result FrameError Fields × Provider
read_metrics a adapter p =
    if not p.connected && not adapter.connects
    then (ok p.metrics, p)
    else listen a adapter.monitored p
