-- ===== src/Vehicles/UploadTests.antt =====
-- The theorem on the files of photos at the upload of a PNG.
use vehinode.Prelude.{
  ℕ, zero, suc, ◌≡◌, refl, arith, String, drop, if◌then◌else◌, ◌==◌, List, [], ◌∷◌, ok,
}
use vehinode.Prelude.Table.{any, find}
use vehinode.Text.{codes, strip, is_space, before, lower}
use vehinode.Can.Bytes.{big_endian}
use vehinode.Json.{get, truthy}
use vehinode.Models.{Key, Db}
use vehinode.Access.{authorize_vehicle, access_level, level_allows, is_admin}
use vehinode.Photos.{MediaType, png_dimensions, media_type_of, validate_photo}
use vehinode.Vehicles.Upload.{str_append, extension, storage_path, committed, upload_vehicle_photo}
use vehinode.Vehicles.Stored.{IsKept, upload_vehicle_photo-IsKept}
use vehinode.Fixtures.{garage, alice}

-- A text for each identifier: as many letters as its number.
abbrev marks : ℕ → String
marks zero = ""
marks (suc n) = String.◌∷◌ "v" (marks n)

leading_marks : List ℕ → ℕ
leading_marks [] = 0
leading_marks (c ∷ s) = let rest = leading_marks s in if c == 118 then suc rest else 0

-- The number of marks behind the fifteen characters of the directory.
abbrev owner : String → Key
unfolding leading_marks
owner path = leading_marks (drop 15 (codes path))

leading_marks_lem :
    (k : Key) (rest : String)
    → leading_marks (codes (str_append (marks k) (str_append "/" rest))) ≡ k
unfolding leading_marks
leading_marks_lem zero rest = refl
leading_marks_lem (suc k) rest = let ih = leading_marks_lem k rest in ground arith

owner-storage_path : (k : Key) (m : MediaType) (d : String) → owner (storage_path marks k m d) ≡ k
unfolding owner storage_path
owner-storage_path k m d = leading_marks_lem k (str_append d (extension m))

abbrev digest : List ℕ → String
digest content = "digest"

abbrev image : List ℕ
image =
    0x89 ∷ 80 ∷ 78 ∷ 71 ∷ 13 ∷ 10 ∷ 0x1A ∷ 10 ∷ 0 ∷ 0 ∷ 0 ∷ 13 ∷ 73 ∷ 72 ∷ 68 ∷ 82 ∷ 0 ∷ 0 ∷ 0 ∷ 32
    ∷ 0 ∷ 0 ∷ 0 ∷ 16 ∷ []

no_photos : IsKept owner garage []
no_photos = record { unique = tt; photos = tt }

upload_vehicle_photo-IsKept_example :
    IsKept owner
      (upload_vehicle_photo digest marks committed garage [] alice 10 image (codes "image/png")).1
      (upload_vehicle_photo digest marks committed garage [] alice 10 image (codes "image/png")).2
upload_vehicle_photo-IsKept_example =
    upload_vehicle_photo-IsKept owner digest marks committed garage [] alice 10 image
      (codes "image/png") owner-storage_path no_photos

abbrev stored : Db
stored = record garage {
  photos =
      record {
        vehicle_id = 10;
        media_type = "image/png";
        size_bytes = 24;
        etag = "digest";
        storage_key = "vehicle-photos/vvvvvvvvvv/digest.png";
      }
      ∷ [];
}

uploaded :
    upload_vehicle_photo digest marks committed garage [] alice 10 image (codes "image/png")
    ≡ (ok tt, stored, "vehicle-photos/vvvvvvvvvv/digest.png" ∷ [])
unfolding upload_vehicle_photo storage_path authorize_vehicle find access_level is_admin get truthy
    level_allows validate_photo media_type_of lower strip before is_space png_dimensions big_endian
    any
uploaded = refl
