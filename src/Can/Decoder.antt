-- ===== src/Can/Decoder.antt =====
-- agent/vehicle_agent/profile_decoder.py and agent/vehicle_agent/providers/raw_can.py: how a profile
-- turns the frames of a vehicle into metrics. A signal has the fields of `ProfileSignal` and
-- `ProfileDecoder` in backend/app/vehicle_profiles/schemas.py, which the server makes a profile keep to.
-- The arithmetic of doubles and the printing of integers are arguments; a mask that a profile gives as
-- a text is held as its number, and messages leave out the name of the signal.
use Prim.Native.Nat.{bit_and, bit_or}
use vehinode.Prelude.{
  ℕ, ◌-◌, ◌*◌, ◌/◌, ◌%◌, ◌^◌, String, Bool, true, false, not, ◌&&◌, Option, none, some, List, [],
  ◌∷◌, reverse, take, drop, length, ◌==◌, ltb, leb, if◌then◌else◌, Result, ok, ◌>>=◌, ◌>>◌,
  raise_if,
}
use vehinode.Prelude.Int.{ℤ, pos, negsuc}
use vehinode.Json.{Double, Json, bool, float, str, Fields, get}
use vehinode.Can.Bytes.{big_endian}

pub data DataType : Type 0 where
  uint8 uint16 uint32 int8 int16 int32 bytes boolean : DataType

pub data Endianness : Type 0 where
  big little : Endianness

pub record DecoderRules : Type 0 where
  pub byte_offset : ℕ
  pub data_type : DataType
  pub endianness : Endianness
  pub scale : Double
  pub offset : Double
  pub length_field : Option ℕ
  pub bit : Option ℕ
  pub bit_mask : Option ℤ
  pub shift : Option ℕ
  pub signed : Bool
  pub enum_table : Option Fields

pub record Signal : Type 0 where
  pub name : String
  pub can_id : ℕ
  pub decoder : DecoderRules
  pub unit : Option String
  pub minimum : Option Double
  pub maximum : Option Double

-- A ProfileError with its message.
abbrev pub Decoded : Type 0 → Type 0
Decoded A = Result String A

abbrev pub or_default : Option ℕ → ℕ → ℕ
or_default none n = n
or_default (some m) n = m

-- The size of an integer and whether it has a sign.
unfoldable pub integer_type : DecoderRules → ℕ × Bool
integer_type d = elim d.data_type [
  | uint8 ↦ (1, false)
  | uint16 ↦ (2, false)
  | uint32 ↦ (4, false)
  | int8 ↦ (1, true)
  | int16 ↦ (2, true)
  | int32 ↦ (4, true)
  | bytes ↦ (or_default d.length_field 1, d.signed)
  | boolean ↦ (1, false)
]

-- `int.from_bytes(chunk, byteorder=endianness, signed=signed)`: two's complement.
unfoldable pub from_bytes : Endianness → Bool → List ℕ → ℤ
from_bytes endianness signed chunk =
    let value = big_endian 0 (elim endianness [ big ↦ chunk | little ↦ reverse chunk ]) in
    if signed && leb (2 ^ (8 * length chunk)) (2 * value)
    then negsuc (2 ^ (8 * length chunk) - value - 1)
    else pos value

-- `value & mask` on integers of any size.
unfoldable pub and_mask : ℤ → ℤ → ℤ
and_mask (pos a) (pos b) = pos (bit_and a b)
and_mask (pos a) (negsuc b) = pos (a - bit_and a b)
and_mask (negsuc a) (pos b) = pos (b - bit_and a b)
and_mask (negsuc a) (negsuc b) = negsuc (bit_or a b)

-- `value >> n` rounds down.
unfoldable pub shift_right : ℤ → ℕ → ℤ
shift_right (pos a) n = pos (a / 2 ^ n)
shift_right (negsuc a) n = negsuc (a / 2 ^ n)

abbrev pub masked : Option ℤ → ℤ → ℤ
masked none value = value
masked (some mask) value = and_mask value mask

abbrev pub shifted : Option ℕ → ℤ → ℤ
shifted none value = value
shifted (some n) value = shift_right value n

pub data RawValue : Type 0 where
  flag : Bool → RawValue
  number : ℤ → RawValue

abbrev pub bit_of : List ℕ → ℕ → ℕ
bit_of [] n = 0
bit_of (b ∷ bs) n = b / 2 ^ n % 2

unfoldable pub raw_flag : List ℕ → DecoderRules → Decoded RawValue
raw_flag payload d = do
  raise_if (leb (length payload) d.byte_offset) "boolean offset exceeds CAN payload"
  raise_if (ltb 7 (or_default d.bit 0)) "boolean bit must be between 0 and 7"
  ok (flag (bit_of (drop d.byte_offset payload) (or_default d.bit 0) == 1))

-- `data[offset : offset + length]`
unfoldable pub chunk_of : List ℕ → DecoderRules → List ℕ
unfolding integer_type
chunk_of payload d = take (integer_type d).0 (drop d.byte_offset payload)

unfoldable pub raw_integer : List ℕ → DecoderRules → Decoded RawValue
unfolding chunk_of integer_type from_bytes
raw_integer payload d = do
  raise_if (not (length (chunk_of payload d) == (integer_type d).0))
      "decoder slice exceeds CAN payload"
  ok (
      number (
        shifted d.shift
          (masked d.bit_mask (from_bytes d.endianness (integer_type d).1 (chunk_of payload d)))))

unfoldable pub raw_value : List ℕ → DecoderRules → Decoded RawValue
unfolding raw_flag raw_integer
raw_value payload d = elim d.data_type [ boolean ↦ raw_flag payload d | _ ↦ raw_integer payload d ]

-- What the decoder needs of doubles, and of the table of an enum: `enum.get(raw, enum.get(str(raw), ...))`.
pub record Doubles : Type 0 where
  pub of_int : ℤ → Double
  pub add : Double → Double → Double
  pub multiply : Double → Double → Double
  pub less : Double → Double → Bool
  pub to_text : ℤ → String
  pub unknown : ℤ → String

abbrev pub below : Doubles → Double → Option Double → Bool
below a value none = false
below a value (some limit) = a.less value limit

abbrev pub above : Doubles → Double → Option Double → Bool
above a value none = false
above a value (some limit) = a.less limit value

-- The table has texts for keys, as JSON has.
abbrev pub enum_value : Doubles → Fields → ℤ → Json
enum_value a table raw = elim (get (a.to_text raw) table) [
  | some v ↦ v
  | none ↦ str (a.unknown raw)
]

unfoldable pub scaled : Doubles → Signal → ℤ → Decoded Json
scaled a signal raw = do
  let value = a.add (a.multiply (a.of_int raw) signal.decoder.scale) signal.decoder.offset
  raise_if (below a value signal.minimum) "below its sanity minimum"
  raise_if (above a value signal.maximum) "above its sanity maximum"
  ok (float value)

unfoldable pub decode_raw : Doubles → Signal → RawValue → Decoded Json
unfolding scaled
decode_raw a signal (flag b) = ok (bool b)
decode_raw a signal (number raw) = elim signal.decoder.enum_table [
  | some table ↦ ok (enum_value a table raw)
  | none ↦ scaled a signal raw
]

unfoldable pub decode_signal : Doubles → Signal → List ℕ → Decoded Json
unfolding decode_raw raw_value
decode_signal a signal payload = do raw ← raw_value payload signal.decoder; decode_raw a signal raw
