-- ===== src/Can/Tests.antt =====
-- The theorems on CAN frames at sample lines, the first from agent/tests/test_can_and_profiles.py.
use vehinode.Prelude.{
  ℕ, ◌≡◌, ◌↔◌, ◌≤◌, ◌+◌, refl, arith, false, none, List, [], ◌∷◌, ◌++◌, All, length, ok, err,
  if◌then◌else◌, leb, ◌==◌,
}
use vehinode.Prelude.Int.{ℤ}
use vehinode.Text.{
  codes, is_space, lstrip, rstrip, strip, replace, split_word, split, join, digit, number,
  unsigned_hex, signed_hex, int_hex, all_digits, is_digit, all_hex, from_hex,
}
use vehinode.Can.{
  CanFrame, value_error, adapter_error, parse_words, parse_payload, declared_length, checked_frame,
  parse_can_frame, Received, heard, monitor, row_text,
}
use vehinode.Can.Bytes.{big_endian}
use vehinode.Can.Bounds.{IsClassic, monitor-IsClassic}
use vehinode.Can.RoundTrip.{recorded, replay_row_text}
use vehinode.Can.Compact.{IsExtended, monitor-extended}
use vehinode.Can.Decoder.{DecoderRules, int16, big, integer_type, raw_value, RawValue}
use vehinode.Can.Decoding.{InRange, raw_value_lem}

abbrev heard_line : Received
heard_line = record { line = codes "374 8 96 00 00 00 00 00 00 07"; arrived = 12 }

abbrev noise : Received
noise = record { line = codes "BUFFER FULL"; arrived = 13 }

abbrev heard_frame : CanFrame
heard_frame = record {
  timestamp = 12;
  can_id = 0x374;
  payload = 150 ∷ 0 ∷ 0 ∷ 0 ∷ 0 ∷ 0 ∷ 0 ∷ 7 ∷ [];
}

frames : monitor (heard_line ∷ []) ≡ ok (heard_frame ∷ [])
unfolding monitor heard parse_can_frame parse_words parse_payload checked_frame declared_length
    is_space lstrip rstrip strip replace split_word split join digit number unsigned_hex signed_hex
    int_hex all_digits is_digit from_hex
frames = refl

monitor-IsClassic_example : All IsClassic (heard_frame ∷ [])
monitor-IsClassic_example = monitor-IsClassic (heard_line ∷ []) frames

-- A line that no part of the adapter's protocol excludes: the word BUFFER is no hexadecimal number.
noise_raises : monitor (noise ∷ []) ≡ err value_error
unfolding monitor heard parse_can_frame parse_words parse_payload checked_frame declared_length
    is_space lstrip rstrip strip replace split_word split join digit number unsigned_hex signed_hex
    int_hex all_digits is_digit from_hex
noise_raises = refl

quiet : IsClassic (recorded 12 0x374 0 (0 ∷ []))
quiet = record { identifier = omega arith; short = omega arith; bytes = omega arith }

-- Two zero bytes come back as none.
replay_row_text_example : parse_can_frame (row_text (recorded 12 0x374 0 (0 ∷ []))) 12 ≡ (
    if leb (big_endian 0 (0 ∷ 0 ∷ [])) 8
    then (if big_endian 0 (0 ∷ 0 ∷ []) == 0
        then ok (record (recorded 12 0x374 0 (0 ∷ [])) { payload = [] })
        else err adapter_error)
    else ok (recorded 12 0x374 0 (0 ∷ [])))
replay_row_text_example = replay_row_text 12 0x374 0 (0 ∷ []) quiet

abbrev extended : Received
extended = record { line = codes "18DAF1100102"; arrived = 14 }

is_extended : IsExtended extended.line
unfolding all_hex digit
is_extended = record { hex = refl; long = omega arith; even = refl }

monitor-extended_example : monitor ((heard_line ∷ []) ++ extended ∷ []) ≡ err value_error
monitor-extended_example = monitor-extended (heard_line ∷ []) [] extended is_extended

abbrev current : DecoderRules
current = record {
  byte_offset = 2;
  data_type = int16;
  endianness = big;
  scale = 0;
  offset = 0;
  length_field = none;
  bit = none;
  bit_mask = none;
  shift = none;
  signed = false;
  enum_table = none;
}

abbrev sent : List ℕ
sent = 150 ∷ 0 ∷ 255 ∷ 246 ∷ []

raw_value_lem_example :
    ((v : ℤ) × (raw_value sent current ≡ ok (RawValue.number v))
      × InRange (integer_type current).1 (integer_type current).0 v)
    ↔ (2 + (integer_type current).0 ≤ length sent)
unfolding integer_type
raw_value_lem_example =
    raw_value_lem sent current (omega arith) (ground arith) (omega arith) refl refl
