-- ===== src/Photos/Files.antt =====
-- JPEG files written out segment by segment, and what backend/app/vehicles/photos.py reads in them.
use vehinode.Prelude.{
  ℕ, zero, suc, ◌+◌, ◌/◌, ◌%◌, ◌<◌, ◌≤◌, ◌≡◌, refl, sym, ◌∙◌, ap, arith, true, false, ◌||◌, Option,
  some, List, [], ◌∷◌, ◌++◌, length, drop, ◌==◌, if◌then◌else◌, All, length-append, ok, err,
  Bool-cases, inl, inr, ==_iff,
}
use mathlib.Core.Path.{ap₂}
use vehinode.Photos.{
  jpeg, dimensions_error, max_photo_bytes, media_type_of, is_supported, validate_photo,
}
use vehinode.Can.Bytes.{big_endian}
use vehinode.Text.{Text, is_empty}
use vehinode.Photos.Jpeg.{
  Dimensions, stop, go, is_frame, skip_fill, read_segment, read_marker, jpeg_round, ended,
  answer_of, jpeg_scan, starts_jpeg, jpeg_dimensions,
}
use vehinode.Photos.Scanning.{jpeg_scan-stop, jpeg_scan-go, jpeg_scan_ends}

pub record Segment : Type 0 where
  pub marker : ℕ
  pub body : List ℕ

-- A number of 16 bits.
abbrev pub word : ℕ → List ℕ → List ℕ
word n rest = n / 256 ∷ n % 256 ∷ rest

-- The bytes of a segment before the rest of a file.
unfoldable pub write_segment : Segment → List ℕ → List ℕ
write_segment s rest = 0xFF ∷ s.marker ∷ word (length s.body + 2) (s.body ++ rest)

-- A marker with a length, behind which no frame starts.
pub record IsSegment (s : Segment) : Type 0 where
  pub size : length s.body + 2 < 65536
  pub filled : (s.marker == 0xFF) ≡ false
  pub bare : (s.marker == 0xD8 || s.marker == 0xD9) ≡ false
  pub other : is_frame s.marker ≡ false

unfoldable pub write_segments : List Segment → List ℕ → List ℕ
unfolding write_segment
write_segments [] rest = rest
write_segments (s ∷ ss) rest = write_segment s (write_segments ss rest)

-- The start of a frame: its dimensions, the precision before them and the components behind them.
pub record Frame : Type 0 where
  pub marker : ℕ
  pub precision : ℕ
  pub dimensions : Dimensions
  pub components : List ℕ

pub record IsFrame (f : Frame) : Type 0 where
  pub start : is_frame f.marker ≡ true
  pub size : length f.components + 7 < 65536
  pub width : f.dimensions.width < 65536
  pub height : f.dimensions.height < 65536

abbrev pub frame_segment : Frame → Segment
frame_segment f = record {
  marker = f.marker;
  body = f.precision ∷ word f.dimensions.height (word f.dimensions.width f.components);
}

unfoldable pub write_jpeg : List Segment → Frame → List ℕ → List ℕ
unfolding write_segments write_segment
write_jpeg segments frame rest =
    0xFF ∷ 0xD8 ∷ write_segments segments (write_segment (frame_segment frame) rest)

big_endian-word : (n : ℕ) → n < 65536 → big_endian 0 (n / 256 ∷ n % 256 ∷ []) ≡ n
unfolding big_endian
big_endian-word n h = omega arith

drop-append : {A : Type 0} (xs ys : List A) → drop (length xs) (xs ++ ys) ≡ ys
drop-append [] ys = refl
drop-append (x ∷ xs) ys = drop-append xs ys

drop_two :
    {A : Type 0} (m n : ℕ) (x y : A) (zs : List A)
    → m ≡ suc (suc n)
    → drop m (x ∷ y ∷ zs) ≡ drop n zs
drop_two zero n x y zs h = absurd (omega arith)
drop_two (suc zero) n x y zs h = absurd (omega arith)
drop_two (suc (suc m)) n x y zs h = let same : m ≡ n = omega arith in ap (λ k. drop k zs) same

read_segment-go :
    (body rest : List ℕ)
    → length body + 2 < 65536
    → read_segment false (word (length body + 2) (body ++ rest)) ≡ go rest
unfolding read_segment
read_segment-go body rest size =
    let value = big_endian-word (length body + 2) size in
    let long = length-append body rest in
    let left : drop (length body + 2) (word (length body + 2) (body ++ rest)) ≡ rest =
      drop_two (length body + 2) (length body) ((length body + 2) / 256) ((length body + 2) % 256)
        (body ++ rest) (omega arith)
      ∙ drop-append body rest in
    ground arith

read_segment-stop :
    (frame : Frame) (rest : List ℕ)
    → IsFrame frame
    → read_segment true
        (word (length (frame_segment frame).body + 2) ((frame_segment frame).body ++ rest))
      ≡ stop (some frame.dimensions)
unfolding read_segment
read_segment-stop frame rest is =
    let n = length (frame_segment frame).body + 2 in
    let value = big_endian-word n (omega (arith, is.size)) in
    let long = length-append frame.components rest in
    let width = big_endian-word frame.dimensions.width is.width in
    let height = big_endian-word frame.dimensions.height is.height in ground arith

jpeg_round-marker :
    (s : Segment) (rest : List ℕ)
    → (s.marker == 0xFF) ≡ false
    → (s.marker == 0xD8 || s.marker == 0xD9) ≡ false
    → jpeg_round (write_segment s rest)
      ≡ read_segment (is_frame s.marker) (word (length s.body + 2) (s.body ++ rest))
unfolding write_segment jpeg_round skip_fill read_marker
jpeg_round-marker s rest filled bare = ground arith

plain-marker : (m k : ℕ) → is_frame m ≡ true → is_frame k ≡ false → (m == k) ≡ false
plain-marker m k frame other = elim (Bool-cases (m == k)) [
  | inl same ↦ let e = (==_iff m k).0 same in absurd (cc)
  | inr differs ↦ differs
]

no_frames : (is_frame 0xFF ≡ false) × (is_frame 0xD8 ≡ false) × (is_frame 0xD9 ≡ false)
unfolding is_frame
no_frames = (refl, refl, refl)

jpeg_round-frame :
    (frame : Frame) (rest : List ℕ)
    → IsFrame frame
    → jpeg_round (write_segment (frame_segment frame) rest) ≡ stop (some frame.dimensions)
jpeg_round-frame frame rest is =
    let (ff, d8, d9) = no_frames in
    let n = length (frame_segment frame).body + 2 in
    jpeg_round-marker (frame_segment frame) rest (plain-marker frame.marker 0xFF is.start ff) (
      ap₂ ◌||◌ (plain-marker frame.marker 0xD8 is.start d8)
        (plain-marker frame.marker 0xD9 is.start d9))
    ∙ ap (λ b. read_segment b (word n ((frame_segment frame).body ++ rest))) is.start
    ∙ read_segment-stop frame rest is

jpeg_round-segment :
    (s : Segment) (rest : List ℕ) → IsSegment s → jpeg_round (write_segment s rest) ≡ go rest
jpeg_round-segment s rest is =
    jpeg_round-marker s rest is.filled is.bare
    ∙ ap (λ b. read_segment b (word (length s.body + 2) (s.body ++ rest))) is.other
    ∙ read_segment-go s.body rest is.size

jpeg_scan-segments :
    (segments : List Segment) (frame : Frame) (rest : List ℕ) (fuel : ℕ)
    → All IsSegment segments
    → IsFrame frame
    → length segments < fuel
    → jpeg_scan fuel (write_segments segments (write_segment (frame_segment frame) rest))
      ≡ ended (some frame.dimensions)
unfolding write_segments
jpeg_scan-segments segments frame rest zero all is enough = absurd (omega arith)
jpeg_scan-segments [] frame rest (suc fuel) all is enough =
    jpeg_scan-stop _ fuel (jpeg_round-frame frame rest is)
jpeg_scan-segments (s ∷ ss) frame rest (suc fuel) all is enough =
    jpeg_scan-go _ fuel
      (jpeg_round-segment s (write_segments ss (write_segment (frame_segment frame) rest)) all.0)
    ∙ jpeg_scan-segments ss frame rest fuel all.1 is (omega arith)

starts-write_jpeg :
    (segments : List Segment) (frame : Frame) (rest : List ℕ)
    → starts_jpeg (write_jpeg segments frame rest) ≡ true
unfolding write_jpeg write_segments write_segment
starts-write_jpeg [] frame rest = ground arith
starts-write_jpeg (s ∷ ss) frame rest = ground arith

ended-injective : {a b : Option Dimensions} → ended a ≡ ended b → a ≡ b
ended-injective {a} {b} h = ap answer_of h

jpeg_dimensions-write_jpeg :
    (segments : List Segment) (frame : Frame) (rest : List ℕ)
    → All IsSegment segments
    → IsFrame frame
    → jpeg_dimensions (write_jpeg segments frame rest) ≡ some frame.dimensions
unfolding write_jpeg
jpeg_dimensions-write_jpeg segments frame rest all is =
    let file = write_jpeg segments frame rest in
    let fuel = suc (length file + length segments) in
    let found = jpeg_scan-segments segments frame rest fuel all is (omega arith) in
    let same = jpeg_scan_ends file fuel (starts-write_jpeg segments frame rest) (omega arith) in
    ended-injective (sym same ∙ found)

-- A file of the start marker, any segments before the first frame, and a frame is measured by that frame,
-- whatever follows it: uploaded as a JPEG of at most 25 MiB, it is accepted with the width and the height
-- that the frame states if they are supported, and refused for its dimensions otherwise.
pub validate_photo-write_jpeg :
    (segments : List Segment) (frame : Frame) (rest : List ℕ) (declared : Text)
    → All IsSegment segments
    → IsFrame frame
    → length (write_jpeg segments frame rest) ≤ max_photo_bytes
    → media_type_of declared ≡ some jpeg
    → validate_photo (write_jpeg segments frame rest) declared ≡ (
        if is_supported frame.dimensions
        then ok (record {
          media_type = jpeg;
          width = frame.dimensions.width;
          height = frame.dimensions.height;
        })
        else err dimensions_error)
unfolding validate_photo
validate_photo-write_jpeg segments frame rest declared all is small e =
    let read = jpeg_dimensions-write_jpeg segments frame rest all is in
    let filled : is_empty (write_jpeg segments frame rest) ≡ false = unfold write_jpeg in refl in
    ground arith
