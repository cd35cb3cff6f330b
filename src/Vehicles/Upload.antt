-- ===== src/Vehicles/Upload.antt =====
-- `upload_vehicle_photo` of backend/app/vehicles/routes.py, with the files of photos, which are given by
-- their storage keys. `digest` is the SHA-256 of the content in hexadecimal, `id_text` the text of an
-- identifier, and `outcome` says whether the file can be written and the transaction be committed.
use vehinode.Prelude.{
  ℕ, String, Bool, Option, none, some, List, [], ◌∷◌, ◌++◌, length, ◌==◌, str_eq, if◌then◌else◌,
  Result, ok, err, HttpError, http, ◌>>=◌,
}
use vehinode.Prelude.Table.{any, find, delete_where}
use vehinode.Text.{Text}
use vehinode.Models.{Key, User, VehiclePhoto, operate, Db}
use vehinode.Access.{authorize_vehicle}
use vehinode.Photos.{
  MediaType, jpeg, png, webp, PhotoError, media_type_error, empty_error, size_error, content_error,
  dimensions_error, ValidatedPhoto, validate_photo,
}
use vehinode.Vehicles.{replace_vehicle_photo}

abbrev pub media_type_text : MediaType → String
media_type_text jpeg = "image/jpeg"
media_type_text png = "image/png"
media_type_text webp = "image/webp"

abbrev pub str_append : String → String → String
str_append String.[] t = t
str_append (String.◌∷◌ c s) t = String.◌∷◌ c (str_append s t)

-- EXTENSIONS
abbrev pub extension : MediaType → String
extension jpeg = ".jpg"
extension png = ".png"
extension webp = ".webp"

-- The path at which `store_photo` leaves a file, below the directory of media.
unfoldable pub storage_path : (Key → String) → Key → MediaType → String → String
storage_path id_text k media_type etag =
    str_append "vehicle-photos/"
      (str_append (id_text k) (str_append "/" (str_append etag (extension media_type))))

-- The transaction is committed or rolled back, or an error ended the writing of the file before it.
pub data Outcome : Type 0 where
  committed rolled_back not_written : Outcome

abbrev pub message_of : PhotoError → String
message_of media_type_error = "photo must be a JPEG, PNG, or WebP image"
message_of empty_error = "photo is empty"
message_of size_error = "photo must not exceed 25 MiB"
message_of content_error = "photo content does not match its media type"
message_of dimensions_error = "photo dimensions are not supported"

abbrev pub accepted_photo : Result PhotoError ValidatedPhoto → Result HttpError ValidatedPhoto
accepted_photo (ok photo) = ok photo
accepted_photo (err e) = http 415 (message_of e)

abbrev pub is_stored : String → List String → Bool
is_stored key files = any (λ file. str_eq file key) files

abbrev pub store_file : String → List String → List String
store_file key files = if is_stored key files then files else files ++ key ∷ []

abbrev pub remove_photo_file : String → List String → List String
remove_photo_file key files = delete_where (λ file. str_eq file key) files

-- The file at the old key goes, unless the new one is there.
abbrev pub remove_replaced : Option String → String → List String → List String
remove_replaced none key files = files
remove_replaced (some old) key files = if str_eq old key then files else remove_photo_file old files

-- After a rollback the new file goes, unless the old one is there.
abbrev pub remove_uploaded : Option String → String → List String → List String
remove_uploaded none key files = remove_photo_file key files
remove_uploaded (some old) key files = if str_eq old key then files else remove_photo_file key files

abbrev pub old_key : Db → Key → Option String
old_key db k = elim (find (λ (p : VehiclePhoto). p.vehicle_id == k) db.photos) [
  | none ↦ none
  | some photo ↦ some photo.storage_key
]

abbrev pub answer_of : Outcome → Result HttpError (Unit {0})
answer_of committed = ok tt
answer_of _ = http 500 "internal server error"

module _ (digest : List ℕ → String) (id_text : Key → String) (outcome : Outcome) where
  abbrev pub new_photo : Key → List ℕ → MediaType → VehiclePhoto
  new_photo k content media_type = record {
    vehicle_id = k;
    media_type = media_type_text media_type;
    size_bytes = length content;
    etag = digest content;
    storage_key = storage_path id_text k media_type (digest content);
  }

  -- The database and the files once the photo has been accepted.
  unfoldable pub store_upload : Db → List String → Option String → VehiclePhoto → Db × List String
  unfolding replace_vehicle_photo
  store_upload db files old photo =
      let stored = store_file photo.storage_key files in
      elim outcome [
        | committed ↦ (replace_vehicle_photo db photo, remove_replaced old photo.storage_key stored)
        | rolled_back ↦ (db, remove_uploaded old photo.storage_key stored)
        | not_written ↦ (db, files)
      ]

  -- The photo that the request names, if it may be stored.
  unfoldable pub checked_upload : Db → User → Key → List ℕ → Text → Result HttpError VehiclePhoto
  checked_upload db user vehicle_id content declared = do
    authorized ← authorize_vehicle db user vehicle_id operate
    photo ← accepted_photo (validate_photo content declared)
    ok (new_photo authorized.vehicle.id content photo.media_type)

  -- The answer, the database and the files.
  unfoldable pub answer_upload :
      Db
      → List String
      → Result HttpError VehiclePhoto
      → Result HttpError (Unit {0}) × Db × List String
  unfolding store_upload
  answer_upload db files (err e) = (err e, db, files)
  answer_upload db files (ok photo) =
      let (db', files') = store_upload db files (old_key db photo.vehicle_id) photo in
      (answer_of outcome, db', files')

  unfoldable pub upload_vehicle_photo :
      Db → List String → User → Key → List ℕ → Text → Result HttpError (Unit {0}) × Db × List String
  unfolding checked_upload answer_upload
  upload_vehicle_photo db files user vehicle_id content declared =
      answer_upload db files (checked_upload db user vehicle_id content declared)
