-- ===== src/Photos/Jpeg.antt =====
-- `_jpeg_dimensions` of backend/app/vehicles/photos.py. The state of its loop is the rest of the data
-- from `position` on.
use vehinode.Prelude.{
  ℕ, zero, suc, Bool, true, false, not, ◌&&◌, ◌||◌, Option, none, some, List, [], ◌∷◌, length, take,
  drop, elem, ◌==◌, ltb, leb, if◌then◌else◌,
}
use vehinode.Text.{eq_text}
use vehinode.Can.Bytes.{big_endian}

pub record Dimensions : Type 0 where
  pub width : ℕ
  pub height : ℕ

-- `start_of_frame`
unfoldable pub is_frame : ℕ → Bool
is_frame marker =
    elem marker (
      0xC0 ∷ 0xC1 ∷ 0xC2 ∷ 0xC3 ∷ 0xC5 ∷ 0xC6 ∷ 0xC7 ∷ 0xC9 ∷ 0xCA ∷ 0xCB ∷ 0xCD ∷ 0xCE ∷ 0xCF ∷ [])

-- What a round of the loop does: it ends with an answer, or it goes on from a later position.
pub data Round : Type 0 where
  stop : Option Dimensions → Round
  go : List ℕ → Round

unfoldable pub skip_fill : List ℕ → List ℕ
skip_fill [] = []
skip_fill (b ∷ bs) = elim (b == 0xFF) [ true ↦ skip_fill bs | false ↦ b ∷ bs ]

-- A segment, from its length on, and whether it starts a frame.
unfoldable pub read_segment : Bool → List ℕ → Round
read_segment frame rest =
    let segment_length = big_endian 0 (take 2 rest) in
    if ltb (length rest) 2
    then stop none
    else if ltb segment_length 2 || ltb (length rest) segment_length
    then stop none
    else if frame && leb 7 segment_length
    then stop (
        some (record {
          width = big_endian 0 (take 2 (drop 5 rest));
          height = big_endian 0 (take 2 (drop 3 rest));
        }))
    else go (drop segment_length rest)

unfoldable pub read_marker : List ℕ → Round
unfolding is_frame read_segment
read_marker [] = stop none
read_marker (marker ∷ rest) =
    if marker == 0xD8 || marker == 0xD9 then go rest else read_segment (is_frame marker) rest

unfoldable pub jpeg_round : List ℕ → Round
unfolding read_marker skip_fill
jpeg_round [] = stop none
jpeg_round (b ∷ rest) =
    if not (leb 4 (length (b ∷ rest)))
    then stop none
    else if not (b == 0xFF)
    then go rest
    else read_marker (skip_fill rest)

pub data Scan : Type 0 where
  out_of_fuel : Scan
  ended : Option Dimensions → Scan

unfoldable pub jpeg_scan : ℕ → List ℕ → Scan
unfolding jpeg_round
jpeg_scan zero rest = out_of_fuel
jpeg_scan (suc fuel) rest = elim (jpeg_round rest) [
  | stop answer ↦ ended answer
  | go later ↦ jpeg_scan fuel later
]

abbrev pub answer_of : Scan → Option Dimensions
answer_of out_of_fuel = none
answer_of (ended answer) = answer

-- `data[:3] == b"\xff\xd8\xff"`
abbrev pub starts_jpeg : List ℕ → Bool
starts_jpeg content = leb 4 (length content) && eq_text (take 3 content) (0xFF ∷ 0xD8 ∷ 0xFF ∷ [])

-- The loop starts at position 2 and moves on in every round, so that it needs at most one round more
-- than there are bytes.
unfoldable pub jpeg_dimensions : List ℕ → Option Dimensions
unfolding jpeg_scan
jpeg_dimensions content =
    if starts_jpeg content
    then answer_of (jpeg_scan (suc (length content)) (drop 2 content))
    else none
