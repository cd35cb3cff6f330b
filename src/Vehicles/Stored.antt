-- ===== src/Vehicles/Stored.antt =====
-- The rows of photos and their files, through the uploads of backend/app/vehicles/routes.py.
use vehinode.Prelude.{
  ℕ, String, ◌≡◌, refl, sym, ap, ◌∙◌, subst, arith, true, false, Option, some, List, [], ◌∷◌, ◌++◌,
  ◌==◌, ==_iff, All, All-append, Option-cases, inl, inr, Result, ok, err, HttpError, Ensures,
  Ensures-bind, Ensures-any,
}
use vehinode.Prelude.Table.{find, find-holds, update_where}
use vehinode.Prelude.Table.Keys.{UniqueBy, UniqueBy-add, UniqueBy-update_where}
use vehinode.Prelude.Table.Selection.{All-mono, All-none, All-key, All-both, All-All, All-not_any}
use vehinode.Prelude.Table.Deletion.{All-of_find, All-update_where_split, none-any}
use vehinode.Text.{Text}
use vehinode.Models.{Key, User, VehiclePhoto, operate, Db}
use vehinode.Access.{authorize_vehicle}
use vehinode.Photos.{MediaType, validate_photo}
use vehinode.Vehicles.{replaced_photo, replace_vehicle_photo}
use vehinode.Vehicles.Upload.{
  Outcome, committed, rolled_back, not_written, storage_path, is_stored, store_file,
  remove_replaced, remove_uploaded, accepted_photo, store_upload, old_key, checked_upload,
  answer_upload, upload_vehicle_photo,
}
use vehinode.Vehicles.Files.{
  is_stored-store_file_self, is_stored-store_file, differs, is_stored-remove_uploaded,
  is_stored-remove_replaced,
}

module _ (owner : String → Key) where
  -- Every photo has its file, at a path of its vehicle.
  pub record HasFile (files : List String) (p : VehiclePhoto) : Type 0 where
    pub owned : owner p.storage_key ≡ p.vehicle_id
    pub stored : is_stored p.storage_key files ≡ true

  pub record IsKept (db : Db) (files : List String) : Type 0 where
    pub unique : UniqueBy (λ (p : VehiclePhoto). p.vehicle_id) db.photos
    pub photos : All (HasFile files) db.photos

  -- What is known of a row before an upload for the vehicle k, whose old photo is at `old`.
  record Before (files : List String) (k : Key) (old : Option String) (p : VehiclePhoto)
      : Type 0 where
    pub file : HasFile files p
    pub only : (p.vehicle_id == k) ≡ true → old ≡ some p.storage_key

  module _ (files : List String) (k : Key) (old : Option String) (key : String)
      (own : owner key ≡ k) where
    after_rollback :
        (p : VehiclePhoto)
        → Before files k old p
        → HasFile (remove_uploaded old key (store_file key files)) p
    after_rollback p before =
        let file = before.file in
        record {
          owned = file.owned;
          stored =
              is_stored-remove_uploaded p.storage_key key old (store_file key files)
                (is_stored-store_file p.storage_key key files file.stored)
                (λ same.
                  before.only
                    ((==_iff p.vehicle_id k).1 (sym file.owned ∙ ap owner (sym same) ∙ own)));
        }

    kept :
        ((o : String) → old ≡ some o → owner o ≡ k)
        → (p : VehiclePhoto) → Before files k old p
        → (p.vehicle_id == k) ≡ false
        → HasFile (remove_replaced old key (store_file key files)) p
    kept old_own p before other =
        let file = before.file in
        record {
          owned = file.owned;
          stored =
              is_stored-remove_replaced p.storage_key key old (store_file key files)
                (is_stored-store_file p.storage_key key files file.stored)
                (λ o e gone. differs o p.storage_key (λ same.
                  let hit =
                    (==_iff p.vehicle_id k).1
                      (sym file.owned ∙ ap owner (sym same) ∙ old_own o e) in
                  ground arith));
        }

    replaced : is_stored key (remove_replaced old key (store_file key files)) ≡ true
    replaced =
        is_stored-remove_replaced key key old (store_file key files)
          (is_stored-store_file_self key files) (λ o e gone. gone)

  module _ (db : Db) (files : List String) (h : IsKept db files) (k : Key) where
    befores : All (Before files k (old_key db k)) db.photos
    befores =
        All-both (HasFile files)
          (λ p. (p.vehicle_id == k) ≡ true → old_key db k ≡ some p.storage_key)
          (Before files k (old_key db k)) db.photos
          (λ p file only. record { file = file; only = only }) h.photos
          (elim (Option-cases (find (λ (p : VehiclePhoto). p.vehicle_id == k) db.photos)) [
            | inl missing ↦
                All-none (λ p. old_key db k ≡ some p.storage_key)
                  (λ (p : VehiclePhoto). p.vehicle_id == k) db.photos
                  (none-any (λ (p : VehiclePhoto). p.vehicle_id == k) db.photos missing)
            | inr (row, found) ↦
                All-key (λ p. old_key db k ≡ some p.storage_key)
                  (λ (p : VehiclePhoto). p.vehicle_id) k db.photos h.unique found (ground arith)
          ])

    old_own : (o : String) → old_key db k ≡ some o → owner o ≡ k
    old_own o e = elim (Option-cases (find (λ (p : VehiclePhoto). p.vehicle_id == k) db.photos)) [
      | inl missing ↦ absurd (ground arith)
      | inr (row, found) ↦
          let file =
            All-of_find (HasFile files) (λ (p : VehiclePhoto). p.vehicle_id == k) db.photos found
              h.photos in
          let own =
            (==_iff row.vehicle_id k).0
              (find-holds (λ (p : VehiclePhoto). p.vehicle_id == k) db.photos found) in
          let same : row.storage_key ≡ o = ground arith in ap owner (sym same) ∙ file.owned ∙ own
    ]

  module _ (digest : List ℕ → String) (id_text : Key → String) where
    store_upload-IsKept :
        (outcome : Outcome) (db : Db) (files : List String) (photo : VehiclePhoto)
        → owner photo.storage_key ≡ photo.vehicle_id
        → IsKept db files
        → IsKept
            (store_upload digest id_text outcome db files (old_key db photo.vehicle_id) photo).0
            (store_upload digest id_text outcome db files (old_key db photo.vehicle_id) photo).1
    unfolding store_upload replace_vehicle_photo
    store_upload-IsKept not_written db files photo own h = h
    store_upload-IsKept rolled_back db files photo own h =
        let k = photo.vehicle_id in
        let old = old_key db k in
        record {
          unique = h.unique;
          photos =
              All-mono (Before files k old)
                (HasFile
                  (remove_uploaded old photo.storage_key (store_file photo.storage_key files)))
                db.photos (after_rollback files k old photo.storage_key own) (befores db files h k);
        }
    store_upload-IsKept committed db files photo own h =
        let k = photo.vehicle_id in
        let old = old_key db k in
        let files' = remove_replaced old photo.storage_key (store_file photo.storage_key files) in
        let is_photo = λ (p : VehiclePhoto). p.vehicle_id == k in
        let there = replaced files k old photo.storage_key own in
        let others : All (λ p. is_photo p ≡ false → HasFile files' p) db.photos =
          All-mono (Before files k old) (λ p. is_photo p ≡ false → HasFile files' p) db.photos
            (kept files k old photo.storage_key own (old_own db files h k))
            (befores db files h k) in
        elim (Option-cases (find is_photo db.photos)) [
          | inl missing ↦
              let nowhere = none-any is_photo db.photos missing in
              let added : (replace_vehicle_photo db photo).photos ≡ db.photos ++ photo ∷ [] =
                ground arith in
              record {
                unique = subst (UniqueBy (λ (p : VehiclePhoto). p.vehicle_id)) (sym added) (
                    UniqueBy-add (λ (p : VehiclePhoto). p.vehicle_id) db.photos photo nowhere
                      h.unique);
                photos = subst (All (HasFile files')) (sym added) (
                    All-append (HasFile files') db.photos (photo ∷ [])
                      (All-both (λ p. is_photo p ≡ false)
                        (λ p. is_photo p ≡ false → HasFile files' p) (HasFile files') db.photos
                        (λ p e file. file e) (All-not_any is_photo db.photos nowhere) others)
                      (record { owned = own; stored = there }, tt));
              }
          | inr (row, found) ↦
              let changed : (replace_vehicle_photo db photo).photos
                  ≡ update_where is_photo (replaced_photo photo) db.photos =
                ground arith in
              record {
                unique = subst (UniqueBy (λ (p : VehiclePhoto). p.vehicle_id)) (sym changed) (
                    UniqueBy-update_where (λ (p : VehiclePhoto). p.vehicle_id) is_photo
                      (replaced_photo photo) db.photos (λ p. refl) h.unique);
                photos = subst (All (HasFile files')) (sym changed) (
                    All-update_where_split (HasFile files') is_photo (replaced_photo photo)
                      db.photos others
                      (All-All (λ p. is_photo p ≡ true → HasFile files' (replaced_photo photo p))
                        db.photos
                        (λ p e. record {
                          owned = own ∙ sym ((==_iff p.vehicle_id k).0 e);
                          stored = there;
                        })));
              }
        ]

    answer_upload-IsKept :
        (outcome : Outcome) (db : Db) (files : List String) (r : Result HttpError VehiclePhoto)
        → Ensures (λ p. owner p.storage_key ≡ p.vehicle_id) r
        → IsKept db files
        → IsKept
            (answer_upload digest id_text outcome db files r).1
            (answer_upload digest id_text outcome db files r).2
    unfolding answer_upload
    answer_upload-IsKept outcome db files (err e) own h = h
    answer_upload-IsKept outcome db files (ok photo) own h =
        store_upload-IsKept outcome db files photo own h

    checked_upload-owned :
        (outcome : Outcome) (db : Db) (user : User) (vehicle_id : Key) (content : List ℕ)
        (declared : Text)
        → ((k : Key) (m : MediaType) (d : String) → owner (storage_path id_text k m d) ≡ k)
        → Ensures
            (λ p. owner p.storage_key ≡ p.vehicle_id)
            (checked_upload digest id_text outcome db user vehicle_id content declared)
    unfolding checked_upload
    checked_upload-owned outcome db user vehicle_id content declared owns =
        Ensures-bind (λ _. Unit {0}) (λ p. owner p.storage_key ≡ p.vehicle_id)
          (authorize_vehicle db user vehicle_id operate) _
          (Ensures-any (authorize_vehicle db user vehicle_id operate))
          (λ a _.
            Ensures-bind (λ _. Unit {0}) (λ p. owner p.storage_key ≡ p.vehicle_id)
              (accepted_photo (validate_photo content declared)) _
              (Ensures-any (accepted_photo (validate_photo content declared)))
              (λ photo _. owns a.vehicle.id photo.media_type (digest content)))

    -- An upload keeps the photos and their files together: if every photo has its file at a path of its
    -- vehicle, and there is one photo for a vehicle at most, this is so after the upload, whether it is
    -- refused, its file cannot be written, or it is committed or rolled back. The paths of different
    -- vehicles have to be different.
    pub upload_vehicle_photo-IsKept :
        (outcome : Outcome) (db : Db) (files : List String) (user : User) (vehicle_id : Key)
        (content : List ℕ) (declared : Text)
        → ((k : Key) (m : MediaType) (d : String) → owner (storage_path id_text k m d) ≡ k)
        → IsKept db files
        → IsKept
            (upload_vehicle_photo digest id_text outcome db files user vehicle_id content
              declared).1
            (upload_vehicle_photo digest id_text outcome db files user vehicle_id content
              declared).2
    unfolding upload_vehicle_photo
    upload_vehicle_photo-IsKept outcome db files user vehicle_id content declared owns h =
        answer_upload-IsKept outcome db files
          (checked_upload digest id_text outcome db user vehicle_id content declared)
          (checked_upload-owned outcome db user vehicle_id content declared owns) h
