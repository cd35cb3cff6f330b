-- ===== src/Access/Defaults.antt =====
-- The access template that a new account starts from.
use vehinode.Prelude.{
  ◌≡◌, refl, subst, true, false, not, Bool-cases, inl, inr, ◌&&◌, some, none, List, [], ◌∷◌, ◌++◌,
  arith, ◌==◌, ==_iff, str_eq, is_some, if◌then◌else◌, ok, distinct,
}
use vehinode.Prelude.Table.{find, any, update_where, is_some-find}
use vehinode.Models.{
  Key, User, Vehicle, VehicleAccessGrant, DefaultVehicleGrant, DefaultAccess, AppSetting, Db,
}
use vehinode.Access.{
  get_vehicle, is_admin, grant_level, access_level, default_access_key, default_setting,
  store_setting, default_vehicle_ids, get_default_access, set_default_access, requested_level,
  default_grants, apply_default_access,
}
use vehinode.Access.Visibility.{vehicle_exists}
use vehinode.Access.Grants.{grant_level-append}

grant_level-default_grants :
    (user_id u w : Key) (template : List DefaultVehicleGrant) (vs : List Vehicle)
    → grant_level (default_grants user_id template vs) u w
      ≡ (if user_id == u && vehicle_exists vs w then requested_level template w else none)
unfolding grant_level default_grants find any
grant_level-default_grants user_id u w template [] = ground arith
grant_level-default_grants user_id u w template (v ∷ vs) =
    ground (arith, grant_level-default_grants user_id u w template vs, ==_iff v.id w)

-- An account without a grant has no level from the grants.
grant_level_fresh :
    (grants : List VehicleAccessGrant) (u w : Key)
    → any (λ (g : VehicleAccessGrant). g.user_id == u) grants ≡ false
    → grant_level grants u w ≡ none
unfolding grant_level find any
grant_level_fresh [] u w h = refl
grant_level_fresh (g ∷ gs) u w h = ground (arith, grant_level_fresh gs u w)

-- Applying the template to an account that holds no grant yet gives it, unless it is an administrator,
-- exactly the level that the template names on each vehicle that exists, and none on the others; the
-- levels of administrators and of everybody else stay as they are.
pub access_level-apply_default :
    (db : Db) (user other : User) (w : Key)
    → any (λ (g : VehicleAccessGrant). g.user_id == user.id) db.grants ≡ false
    → access_level (apply_default_access db user) other w ≡ (
        if user.id == other.id && not (is_admin other)
        then (if is_some (get_vehicle db w)
            then requested_level (get_default_access db).grants w
            else none)
        else access_level db other w)
unfolding access_level apply_default_access
access_level-apply_default db user other w fresh =
    let appended =
      grant_level-append db.grants
        (default_grants user.id (get_default_access db).grants db.vehicles) other.id w in
    let given =
      grant_level-default_grants user.id other.id w (get_default_access db).grants db.vehicles in
    let exists = is_some-find (λ (v : Vehicle). v.id == w) db.vehicles in
    elim (Bool-cases (user.id == other.id)) [
      | inl same ↦
          let key : user.id ≡ other.id = (==_iff user.id other.id).0 same in
          let nothing : grant_level db.grants other.id w ≡ none =
            grant_level_fresh db.grants other.id w (
              subst (λ k. any (λ (g : VehicleAccessGrant). g.user_id == k) db.grants ≡ false) key
                fresh) in
          ground (arith, appended, given, exists, nothing)
      | inr others ↦ ground (arith, appended, given, exists)
    ]

module _ (value : DefaultAccess) where
  find-update_setting :
      (xs : List AppSetting)
      → default_setting
          (update_where (λ s. str_eq s.key default_access_key) (λ s. record s { value = value }) xs)
        ≡ elim (default_setting xs) [ none ↦ none | some s ↦ some (record s { value = value }) ]
  unfolding find update_where
  find-update_setting [] = refl
  find-update_setting (x ∷ xs) = ground (arith, find-update_setting xs)

  find-add_setting :
      (xs : List AppSetting)
      → default_setting xs ≡ none
      → default_setting (xs ++ record { key = default_access_key; value = value } ∷ [])
        ≡ some (record { key = default_access_key; value = value })
  unfolding find
  find-add_setting [] h = refl
  find-add_setting (x ∷ xs) h = ground (arith, find-add_setting xs)

  get-store_setting :
      (db : Db)
      → get_default_access (record db { settings = store_setting value db.settings }) ≡ value
  unfolding get_default_access store_setting
  get-store_setting db =
      ground (arith, find-update_setting db.settings, find-add_setting db.settings)

-- A template that is stored names no vehicle twice, and is what is read back.
pub get-set_default_access :
    (db : Db) (value r : DefaultAccess) (db' : Db)
    → set_default_access db value ≡ ok (r, db')
    → (get_default_access db' ≡ value)
      × (r ≡ value)
      × (distinct (default_vehicle_ids value.grants) ≡ true)
unfolding set_default_access
get-set_default_access db value r db' h = ground (arith, get-store_setting value db)
