-- ===== src/Photos/Tests.antt =====
-- The theorems on photos at a small file, and files of the other formats.
use vehinode.Prelude.{◌≡◌, refl, arith, some, List, ℕ, [], ◌∷◌, ok, drop}
use vehinode.Text.{codes, strip, lstrip, rstrip, is_space, before, lower}
use vehinode.Can.Bytes.{little_endian}
use vehinode.Photos.Jpeg.{is_frame, ended, jpeg_scan, jpeg_dimensions}
use vehinode.Photos.{jpeg, media_type_of, webp_dimensions, validate_photo}
use vehinode.Photos.Scanning.{jpeg_scan_ends}
use vehinode.Photos.Files.{
  Segment, IsSegment, Frame, IsFrame, write_segment, write_segments, write_jpeg,
  validate_photo-write_jpeg,
}

abbrev comment : Segment
comment = record { marker = 0xE0; body = 1 ∷ 2 ∷ [] }

abbrev frame : Frame
frame = record {
  marker = 0xC0;
  precision = 8;
  dimensions = record { width = 640; height = 480 };
  components = 3 ∷ [];
}

abbrev file : List ℕ
file = write_jpeg (comment ∷ []) frame (0xFF ∷ 0xD9 ∷ [])

comment-IsSegment : IsSegment comment
unfolding is_frame
comment-IsSegment = record { size = omega arith; filled = refl; bare = refl; other = refl }

frame-IsFrame : IsFrame frame
unfolding is_frame
frame-IsFrame = record {
  start = refl;
  size = omega arith;
  width = omega arith;
  height = omega arith;
}

declared_jpeg : media_type_of (codes " Image/JPEG; q=1") ≡ some jpeg
unfolding media_type_of strip lstrip rstrip is_space before lower
declared_jpeg = refl

validate_photo-write_jpeg_example :
    validate_photo file (codes " Image/JPEG; q=1")
    ≡ ok (record { media_type = jpeg; width = 640; height = 480 })
validate_photo-write_jpeg_example =
    validate_photo-write_jpeg (comment ∷ []) frame (0xFF ∷ 0xD9 ∷ []) (codes " Image/JPEG; q=1")
      (comment-IsSegment, tt) frame-IsFrame
      (unfold write_jpeg write_segments write_segment in omega arith) declared_jpeg

-- A segment that claims to go on behind the end of the file.
abbrev cut : List ℕ
cut = 0xFF ∷ 0xD8 ∷ 0xFF ∷ 0xE0 ∷ 9 ∷ 9 ∷ []

jpeg_scan_ends_example : jpeg_scan 7 (drop 2 cut) ≡ ended (jpeg_dimensions cut)
jpeg_scan_ends_example = jpeg_scan_ends cut 7 refl (omega arith)

abbrev lossless : List ℕ
lossless =
    82 ∷ 73 ∷ 70 ∷ 70 ∷ 0 ∷ 0 ∷ 0 ∷ 0 ∷ 87 ∷ 69 ∷ 66 ∷ 80 ∷ 86 ∷ 80 ∷ 56 ∷ 76 ∷ 0 ∷ 0 ∷ 0 ∷ 0 ∷ 0x2F
    ∷ 0x3F ∷ 0xC1 ∷ 0x0F ∷ 0 ∷ 0 ∷ 0 ∷ 0 ∷ 0 ∷ 0 ∷ []

webp_is_read : webp_dimensions lossless ≡ some (record { width = 320; height = 64 })
unfolding webp_dimensions little_endian
webp_is_read = refl
