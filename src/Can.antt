-- ===== src/Can.antt =====
-- The CAN frames of the agent: `parse_can_frame` and the monitor of
-- agent/vehicle_agent/providers/obdlink.py, and the rows of a capture in
-- agent/vehicle_agent/models.py and agent/vehicle_agent/capture.py. Messages are left out of the errors.
pub mod Bytes
mod Bounds
mod Declared
mod RoundTrip
mod Compact
mod Decoder
mod Metrics
mod Decoding
mod Tests
use vehinode.Prelude.{
  ℕ, zero, suc, ◌+◌, Bool, true, false, not, ◌&&◌, ◌||◌, Option, none, some, List, [], ◌∷◌, ◌++◌,
  take, drop, ◌==◌, ltb, leb, if◌then◌else◌, length, Result, ok, err, ◌>>=◌, ◌>>◌, raise_if,
}
use vehinode.Prelude.Int.{ℤ, pos, negsuc}
use vehinode.Json.{Double}
use vehinode.Text.{
  Text, codes, is_empty, strip, replace, split, join, number, int_hex, is_digit, all_hex, from_hex,
  eq_text, hex_bytes, format_03x,
}

pub record CanFrame : Type 0 where
  pub timestamp : Double
  pub can_id : ℕ
  pub payload : List ℕ

-- The two exceptions that parsing raises: AdapterError and ValueError.
pub data FrameError : Type 0 where
  adapter_error value_error : FrameError

abbrev pub or_value_error : {A : Type 0} → Option A → Result FrameError A
or_value_error none = err value_error
or_value_error (some a) = ok a

abbrev pub max_can_id : ℕ
max_can_id = 0x1FFF_FFFF

-- The regular expression asks for three or eight digits and then one or more; it takes three whenever
-- four digits or more are all there is.
unfoldable pub parse_compact : Text → Result FrameError (Text × List ℕ)
parse_compact cleaned =
    if all_hex cleaned && leb 4 (length cleaned)
    then (or_value_error (from_hex (drop 3 cleaned)) >>= λ payload. ok (take 3 cleaned, payload))
    else err adapter_error

abbrev pub decimal : Text → Option ℕ
decimal s = number 10 true 0 s

-- The first word behind the identifier is taken for a length if it is a decimal number up to 8.
unfoldable pub declared_length : Text → Option ℕ
declared_length word =
    if not (is_digit word)
    then none
    else elim (decimal word) [ none ↦ none | some n ↦ if leb n 8 then some n else none ]

unfoldable pub parse_payload : Text → List Text → Option ℕ → Result FrameError (List ℕ)
parse_payload word rest none = or_value_error (from_hex (join (word ∷ rest)))
parse_payload word rest (some n) = do
  payload ← or_value_error (from_hex (join rest))
  raise_if (not (n == length payload)) adapter_error
  ok payload

unfoldable pub parse_words : Text → List Text → Result FrameError (Text × List ℕ)
unfolding parse_compact parse_payload declared_length
parse_words cleaned [] = parse_compact cleaned
parse_words cleaned (word ∷ []) = parse_compact cleaned
parse_words cleaned (can_id_text ∷ word ∷ rest) = do
  payload ← parse_payload word rest (declared_length word)
  ok (can_id_text, payload)

abbrev pub in_bounds : ℤ → Result FrameError ℕ
in_bounds (pos n) = if leb n max_can_id then ok n else err adapter_error
in_bounds (negsuc n) = err adapter_error

unfoldable pub checked_frame : Double → Text × List ℕ → Result FrameError CanFrame
checked_frame timestamp (can_id_text, payload) = do
  value ← or_value_error (int_hex can_id_text)
  can_id ← in_bounds value
  raise_if (ltb 8 (length payload)) adapter_error
  ok (record { timestamp = timestamp; can_id = can_id; payload = payload })

abbrev pub cleaned_line : Text → Text
cleaned_line line = replace 58 32 (strip line)

unfoldable pub parse_can_frame : Text → Double → Result FrameError CanFrame
unfolding parse_words checked_frame
parse_can_frame line timestamp = do
  parts ← parse_words (cleaned_line line) (split (cleaned_line line))
  checked_frame timestamp parts

-- A line that the adapter sent while it was monitored, and the time of its arrival.
pub record Received : Type 0 where
  pub line : Text
  pub arrived : Double

abbrev pub push_frame :
    CanFrame → Result FrameError (List CanFrame) → Result FrameError (List CanFrame)
push_frame f (ok fs) = ok (f ∷ fs)
push_frame f (err e) = err e

-- What the monitor makes of one line: an AdapterError is skipped, a ValueError is not caught.
unfoldable pub heard :
    Result FrameError CanFrame
    → Result FrameError (List CanFrame)
    → Result FrameError (List CanFrame)
heard (ok frame) rest = push_frame frame rest
heard (err adapter_error) rest = rest
heard (err value_error) rest = err value_error

abbrev pub is_data : Text → Bool
is_data line = not (is_empty line) && not (eq_text line (codes "SEARCHING..."))

-- The frames of the lines that arrive before the deadline.
unfoldable pub monitor : List Received → Result FrameError (List CanFrame)
unfolding heard parse_can_frame
monitor [] = ok []
monitor (r ∷ rs) =
    let rest = monitor rs in
    if is_data (strip r.line) then heard (parse_can_frame (strip r.line) r.arrived) rest else rest

-- The identifier and the data of a row of a capture.
unfoldable pub can_id_text : CanFrame → Text
can_id_text frame = codes "0x" ++ format_03x frame.can_id

unfoldable pub data_text : CanFrame → Text
data_text frame = hex_bytes frame.payload

-- The line that `replay_capture` hands to the parser for such a row.
unfoldable pub row_text : CanFrame → Text
unfolding can_id_text data_text
row_text frame = can_id_text frame ++ 32 ∷ data_text frame
