-- ===== src/Photos.antt =====
-- backend/app/vehicles/photos.py: the dimensions of an uploaded image, read from its bytes. A position in
-- the data is given as the bytes from there on.
mod Jpeg
mod Scanning
mod Files
mod Tests
pub use Jpeg.{Dimensions}
use vehinode.Prelude.{
  ℕ, ◌+◌, ◌*◌, ◌/◌, ◌%◌, Bool, true, false, not, ◌&&◌, ◌||◌, Option, none, some, List, [], ◌∷◌,
  length, take, drop, ◌==◌, ltb, leb, if◌then◌else◌, Result, ok, err, ◌>>=◌, ◌>>◌, raise_if,
}
use vehinode.Text.{Text, codes, is_empty, strip, eq_text, before, lower}
use vehinode.Can.Bytes.{big_endian, little_endian}
use Jpeg.{jpeg_dimensions}

pub data MediaType : Type 0 where
  jpeg png webp : MediaType

pub record ValidatedPhoto : Type 0 where
  pub media_type : MediaType
  pub width : ℕ
  pub height : ℕ

pub data PhotoError : Type 0 where
  media_type_error empty_error size_error content_error dimensions_error : PhotoError

abbrev pub max_photo_bytes : ℕ
max_photo_bytes = 25 * 1024 * 1024

abbrev pub max_photo_edge : ℕ
max_photo_edge = 12000

abbrev pub max_photo_pixels : ℕ
max_photo_pixels = 40000000

-- `data[start : start + size]`
abbrev pub slice : ℕ → ℕ → List ℕ → List ℕ
slice start size content = take size (drop start content)

unfoldable pub png_dimensions : List ℕ → Option Dimensions
png_dimensions content =
    if ltb (length content) 24
      || not (eq_text (take 8 content) (0x89 ∷ 80 ∷ 78 ∷ 71 ∷ 13 ∷ 10 ∷ 0x1A ∷ 10 ∷ []))
      || not (eq_text (slice 12 4 content) (codes "IHDR"))
    then none
    else some (record {
      width = big_endian 0 (slice 16 4 content);
      height = big_endian 0 (slice 20 4 content);
    })

unfoldable pub webp_dimensions : List ℕ → Option Dimensions
webp_dimensions content =
    let codec = slice 12 4 content in
    let bits = little_endian (slice 21 4 content) in
    if ltb (length content) 30
      || not (eq_text (take 4 content) (codes "RIFF"))
      || not (eq_text (slice 8 4 content) (codes "WEBP"))
    then none
    else if eq_text codec (codes "VP8X")
    then some (record {
      width = little_endian (slice 24 3 content) + 1;
      height = little_endian (slice 27 3 content) + 1;
    })
    else if eq_text codec (codes "VP8 ") && eq_text (slice 23 3 content) (0x9D ∷ 0x01 ∷ 0x2A ∷ [])
    then some (record {
      width = little_endian (slice 26 2 content) % 0x4000;
      height = little_endian (slice 28 2 content) % 0x4000;
    })
    else if eq_text codec (codes "VP8L")
        && leb 25 (length content)
        && eq_text (slice 20 1 content) (0x2F ∷ [])
    then some (record { width = bits % 0x4000 + 1; height = bits / 0x4000 % 0x4000 + 1 })
    else none

-- The media types that are allowed.
unfoldable pub media_type_of : Text → Option MediaType
media_type_of declared =
    let name = lower (strip (before 59 declared)) in
    if eq_text name (codes "image/jpeg")
    then some jpeg
    else if eq_text name (codes "image/png")
    then some png
    else if eq_text name (codes "image/webp")
    then some webp
    else none

abbrev pub dimensions_of : MediaType → List ℕ → Option Dimensions
dimensions_of jpeg content = jpeg_dimensions content
dimensions_of png content = png_dimensions content
dimensions_of webp content = webp_dimensions content

abbrev pub required : {A : Type 0} → PhotoError → Option A → Result PhotoError A
required e none = err e
required e (some a) = ok a

abbrev pub is_supported : Dimensions → Bool
is_supported d = not (
    ltb d.width 1
    || ltb d.height 1
    || ltb max_photo_edge d.width
    || ltb max_photo_edge d.height
    || ltb max_photo_pixels (d.width * d.height))

unfoldable pub validate_photo : List ℕ → Text → Result PhotoError ValidatedPhoto
validate_photo content declared_media_type = do
  media_type ← required media_type_error (media_type_of declared_media_type)
  raise_if (is_empty content) empty_error
  raise_if (ltb max_photo_bytes (length content)) size_error
  dimensions ← required content_error (dimensions_of media_type content)
  raise_if (not (is_supported dimensions)) dimensions_error
  ok (record { media_type = media_type; width = dimensions.width; height = dimensions.height })
