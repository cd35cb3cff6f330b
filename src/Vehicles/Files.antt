-- ===== src/Vehicles/Files.antt =====
-- The files of photos under the operations of backend/app/vehicles/photo_storage.py.
use vehinode.Prelude.{
  String, ◌≡◌, refl, arith, true, false, Option, none, some, List, [], ◌∷◌, str_eq, eq_iff, eq_refl,
  Bool-cases, inl, inr,
}
use vehinode.Prelude.Table.{any, delete_where, any-append}
use vehinode.Vehicles.Upload.{
  is_stored, store_file, remove_photo_file, remove_replaced, remove_uploaded,
}

pub is_stored-store_file_self :
    (key : String) (files : List String) → is_stored key (store_file key files) ≡ true
unfolding any
is_stored-store_file_self key files = elim (Bool-cases (is_stored key files)) [
  | inl there ↦ ground arith
  | inr new ↦
      let added = any-append (λ file. str_eq file key) files (key ∷ []) in
      let same = eq_refl key in ground arith
]

pub is_stored-store_file :
    (key new : String) (files : List String)
    → is_stored key files ≡ true
    → is_stored key (store_file new files) ≡ true
is_stored-store_file key new files h = elim (Bool-cases (is_stored new files)) [
  | inl there ↦ ground arith
  | inr added ↦ let both = any-append (λ file. str_eq file key) files (new ∷ []) in ground arith
]

is_stored-remove :
    (key gone : String) (files : List String)
    → str_eq gone key ≡ false
    → is_stored key files ≡ true
    → is_stored key (remove_photo_file gone files) ≡ true
unfolding any delete_where
is_stored-remove key gone [] other h = h
is_stored-remove key gone (file ∷ files) other h = ground (
  arith,
  is_stored-remove key gone files other,
  eq_iff file gone,
  eq_iff file key,
  eq_iff gone key,
)

pub differs : (a b : String) → (a ≡ b → ⊥) → str_eq a b ≡ false
differs a b k = elim (Bool-cases (str_eq a b)) [
  | inl same ↦ absurd (k ((eq_iff a b).0 same))
  | inr other ↦ other
]

pub is_stored-remove_uploaded :
    (x key : String) (old : Option String) (files : List String)
    → is_stored x files ≡ true
    → (key ≡ x → old ≡ some x)
    → is_stored x (remove_uploaded old key files) ≡ true
is_stored-remove_uploaded x key none files h k = elim (Bool-cases (str_eq key x)) [
  | inl same ↦ absurd (let e = k ((eq_iff key x).0 same) in ground arith)
  | inr other ↦ is_stored-remove x key files other h
]
is_stored-remove_uploaded x key (some o) files h k = elim (Bool-cases (str_eq o key)) [
  | inl there ↦ ground arith
  | inr gone ↦ elim (Bool-cases (str_eq key x)) [
    | inl same ↦ absurd (
        let s = (eq_iff key x).0 same in
        let e = k s in let hit : o ≡ key = cc in let yes = (eq_iff o key).1 hit in ground arith)
    | inr other ↦ let kept = is_stored-remove x key files other h in ground arith
  ]
]

pub is_stored-remove_replaced :
    (x key : String) (old : Option String) (files : List String)
    → is_stored x files ≡ true
    → ((o : String) → old ≡ some o → str_eq o key ≡ false → str_eq o x ≡ false)
    → is_stored x (remove_replaced old key files) ≡ true
is_stored-remove_replaced x key none files h k = h
is_stored-remove_replaced x key (some o) files h k = elim (Bool-cases (str_eq o key)) [
  | inl there ↦ ground arith
  | inr gone ↦ let kept = is_stored-remove x o files (k o refl gone) h in ground arith
]
