-- ===== src/Can/RoundTrip.antt =====
-- A frame that is recorded in a capture, and what the replay of its row is.
use vehinode.Prelude.{
  ℕ, ◌/◌, ◌%◌, ◌≤◌, ◌≡◌, ◌∙◌, arith, true, List, [], ◌∷◌, ◌++◌, leb, ◌==◌, if◌then◌else◌, length,
  ok, err, ◌>>=◌,
}
use mathlib.Core.List.{append-nil}
use vehinode.Json.{Double}
use vehinode.Text.{Text, join, from_hex, hex_bytes, format_03x, hex_digit, is_space}
use vehinode.Text.Words.{is_plain, clean-two, split-two}
use vehinode.Text.Hex.{from_hex-hex_bytes, IsHex-format_03x, int_hex-format_03x, is_plain-hex_bytes}
use vehinode.Can.{
  CanFrame, adapter_error, max_can_id, parse_payload, parse_words, declared_length, checked_frame,
  parse_can_frame, can_id_text, data_text, row_text,
}
use vehinode.Can.Bounds.{IsClassic}
use vehinode.Can.Bytes.{big_endian}
use vehinode.Can.Declared.{declared_length-hex_bytes}

parse_two :
    (c d : ℕ) (s t : Text) (timestamp : Double)
    → is_plain (c ∷ s) ≡ true
    → is_plain (d ∷ t) ≡ true
    → parse_can_frame ((c ∷ s) ++ 32 ∷ d ∷ t) timestamp ≡ (
        parse_payload (d ∷ t) [] (declared_length (d ∷ t)) >>= λ payload.
        checked_frame timestamp ((c ∷ s), payload))
unfolding parse_can_frame parse_words
parse_two c d s t timestamp p q =
    rw (clean-two c d s t p q) (rw (split-two c d s t p q) (ground arith))

module _ (timestamp : Double) (can_id b : ℕ) (bs : List ℕ) where
  -- A frame with data.
  abbrev pub recorded : CanFrame
  recorded = record { timestamp = timestamp; can_id = can_id; payload = b ∷ bs }

  module _ (classic : IsClassic recorded) where
    checked :
        (payload : List ℕ)
        → length payload ≤ 8
        → checked_frame timestamp (48 ∷ 120 ∷ format_03x can_id, payload)
          ≡ ok (record recorded { payload = payload })
    unfolding checked_frame
    checked payload short =
        let id : can_id ≤ max_can_id = classic.identifier in
        ground (arith, int_hex-format_03x can_id)

    plain_id : is_plain (48 ∷ 120 ∷ format_03x can_id) ≡ true
    unfolding is_space
    plain_id = (IsHex-format_03x can_id).1

    parse-row_text : parse_can_frame (row_text recorded) timestamp ≡ (
        parse_payload (hex_bytes (b ∷ bs)) [] (declared_length (hex_bytes (b ∷ bs))) >>= λ payload.
        checked_frame timestamp (48 ∷ 120 ∷ format_03x can_id, payload))
    unfolding row_text can_id_text data_text hex_bytes
    parse-row_text =
        parse_two 48 (hex_digit (b / 16)) (120 ∷ format_03x can_id)
          (hex_digit (b % 16) ∷ hex_bytes bs) timestamp plain_id
          (is_plain-hex_bytes (b ∷ bs) classic.bytes)

    -- The replay of a row that was recorded from a frame with data. The frame comes back where its bytes,
    -- read as one number, are more than 8. Other data is taken for a length: the frame comes back empty
    -- where all its bytes are zero, and is refused otherwise.
    pub replay_row_text : parse_can_frame (row_text recorded) timestamp ≡ (
        if leb (big_endian 0 (b ∷ bs)) 8
        then (if big_endian 0 (b ∷ bs) == 0
            then ok (record recorded { payload = [] })
            else err adapter_error)
        else ok recorded)
    unfolding parse_payload join from_hex
    replay_row_text =
        parse-row_text
        ∙ ground (
          arith,
          declared_length-hex_bytes b bs classic.bytes,
          checked [],
          checked (b ∷ bs),
          from_hex-hex_bytes (b ∷ bs) classic.bytes,
          append-nil (hex_bytes (b ∷ bs)),
        )
