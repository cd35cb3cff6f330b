-- ===== src/Access/Grants.antt =====
-- Replacing the grants of a vehicle: what is refused, and what the table holds afterwards.
use mathlib.Core.Option
use vehinode.Prelude.{
  String, eq_iff, ◌≡◌, refl, ◌↔◌, Bool, true, false, not, ◌&&◌, none, Option, List, [], ◌∷◌, ◌++◌,
  elem, distinct, arith, ◌==◌, is_some, if◌then◌else◌, All, All-append, ok, err, ==_iff,
}
use vehinode.Prelude.Table.{find, any, delete_where, any-append}
use vehinode.Models.{Key, User, Vehicle, VehicleAccessLevel, VehicleAccessGrant, Db}
use vehinode.Access.{
  VehicleGrantWrite, VehicleGrantResponse, is_admin, get_vehicle, grant_level, access_level,
  user_ids, new_grants, existing_users, same_set, subset, replace_grants, replace_vehicle_grants,
  list_vehicle_grants,
}
use vehinode.Access.Visibility.{vehicle_exists, GrantsRefer}

-- The level that a request asks for.
abbrev pub written_level : List VehicleGrantWrite → Key → Option VehicleAccessLevel
written_level grants user_id =
    Option.map (λ (g : VehicleGrantWrite). g.level) (find (λ g. g.user_id == user_id) grants)

grant_level-new_grants :
    (v u w : Key) (gs : List VehicleGrantWrite)
    → grant_level (new_grants v gs) u w ≡ (if v == w then written_level gs u else none)
unfolding grant_level find
grant_level-new_grants v u w [] = ground arith
grant_level-new_grants v u w (g ∷ gs) = ground (arith, grant_level-new_grants v u w gs)

grant_level-delete :
    (v u w : Key) (gs : List VehicleAccessGrant)
    → grant_level (delete_where (λ g. g.vehicle_id == v) gs) u w
      ≡ (if v == w then none else grant_level gs u w)
unfolding grant_level find delete_where
grant_level-delete v u w [] = ground arith
grant_level-delete v u w (g ∷ gs) = ground (arith, grant_level-delete v u w gs)

pub grant_level-append :
    (xs ys : List VehicleAccessGrant) (u w : Key)
    → grant_level (xs ++ ys) u w
      ≡ (if is_some (grant_level xs u w) then grant_level xs u w else grant_level ys u w)
unfolding grant_level find
grant_level-append [] ys u w = refl
grant_level-append (x ∷ xs) ys u w = ground (arith, grant_level-append xs ys u w)

grant_level-replace :
    (v u w : Key) (gs : List VehicleGrantWrite) (table : List VehicleAccessGrant)
    → grant_level (replace_grants v gs table) u w
      ≡ (if v == w then written_level gs u else grant_level table u w)
unfolding replace_grants
grant_level-replace v u w gs table = ground (
  arith,
  grant_level-append (delete_where (λ g. g.vehicle_id == v) table) (new_grants v gs) u w,
  grant_level-delete v u w table,
  grant_level-new_grants v u w gs,
)

-- The composite primary key of the table: one grant for each vehicle and user.
abbrev pub has_grant : Key → Key → List VehicleAccessGrant → Bool
has_grant u v = any (λ g. g.user_id == u && g.vehicle_id == v)

abbrev pub UniqueGrants : List VehicleAccessGrant → Type 0
UniqueGrants [] = Unit
UniqueGrants (g ∷ gs) = (has_grant g.user_id g.vehicle_id gs ≡ false) × UniqueGrants gs

has_grant-delete :
    (v u w : Key) (gs : List VehicleAccessGrant)
    → has_grant u w (delete_where (λ g. g.vehicle_id == v) gs)
      ≡ (if v == w then false else has_grant u w gs)
unfolding any delete_where
has_grant-delete v u w [] = ground arith
has_grant-delete v u w (g ∷ gs) = ground (arith, has_grant-delete v u w gs)

has_grant-new_grants :
    (v u w : Key) (gs : List VehicleGrantWrite)
    → has_grant u w (new_grants v gs) ≡ ((v == w) && elem u (user_ids gs))
unfolding any
has_grant-new_grants v u w [] = ground arith
has_grant-new_grants v u w (g ∷ gs) = ground (arith, has_grant-new_grants v u w gs)

UniqueGrants-new_grants :
    (v : Key) (gs : List VehicleGrantWrite)
    → distinct (user_ids gs) ≡ true
    → UniqueGrants (new_grants v gs)
UniqueGrants-new_grants v [] h = tt
UniqueGrants-new_grants v (g ∷ gs) h =
    ground (arith, UniqueGrants-new_grants v gs, has_grant-new_grants v g.user_id v gs)

UniqueGrants-delete-append :
    (v : Key) (xs : List VehicleAccessGrant) (gs : List VehicleGrantWrite)
    → UniqueGrants xs
    → distinct (user_ids gs) ≡ true
    → UniqueGrants (delete_where (λ g. g.vehicle_id == v) xs ++ new_grants v gs)
unfolding delete_where
UniqueGrants-delete-append v [] gs h k = UniqueGrants-new_grants v gs k
UniqueGrants-delete-append v (x ∷ xs) gs h k = ground (
  arith,
  UniqueGrants-delete-append v xs gs h.1 k,
  any-append (λ g. g.user_id == x.user_id && g.vehicle_id == x.vehicle_id)
      (delete_where (λ g. g.vehicle_id == v) xs) (new_grants v gs),
  has_grant-delete v x.user_id x.vehicle_id xs,
  has_grant-new_grants v x.user_id x.vehicle_id gs,
)

GrantsRefer-delete :
    (v : Key) (vehicles : List Vehicle) (xs : List VehicleAccessGrant)
    → GrantsRefer vehicles xs
    → GrantsRefer vehicles (delete_where (λ g. g.vehicle_id == v) xs)
unfolding delete_where
GrantsRefer-delete v vehicles [] h = tt
GrantsRefer-delete v vehicles (x ∷ xs) h = ground (arith, GrantsRefer-delete v vehicles xs h.1)

GrantsRefer-new_grants :
    (v : Key) (vehicles : List Vehicle) (gs : List VehicleGrantWrite)
    → vehicle_exists vehicles v ≡ true
    → GrantsRefer vehicles (new_grants v gs)
GrantsRefer-new_grants v vehicles [] h = tt
GrantsRefer-new_grants v vehicles (g ∷ gs) h = (h, GrantsRefer-new_grants v vehicles gs h)

-- The identifiers that a request names are those of users.
abbrev pub AllKnown : List User → List Key → Type 0
AllKnown users = All (λ k. any (λ (u : User). u.id == k) users ≡ true)

elem-existing_users :
    (k : Key) (us : List User) (ids : List Key)
    → elem k (existing_users us ids) ≡ (any (λ (u : User). u.id == k) us && elem k ids)
unfolding any
elem-existing_users k [] ids = refl
elem-existing_users k (u ∷ us) ids = ground (arith, elem-existing_users k us ids, ==_iff u.id k)

subset-cons : (x : Key) (xs ys : List Key) → subset xs ys ≡ true → subset xs (x ∷ ys) ≡ true
subset-cons x [] ys h = refl
subset-cons x (z ∷ xs) ys h = ground (arith, subset-cons x xs ys)

-- The query returns no identifier that it was not asked for.
existing_subset : (us : List User) (ids : List Key) → subset (existing_users us ids) ids ≡ true
existing_subset [] ids = refl
existing_subset (u ∷ us) ids = ground (arith, existing_subset us ids)

subset-AllKnown :
    (us : List User) (ids all : List Key)
    → subset ids (existing_users us all) ≡ true
    → AllKnown us ids
subset-AllKnown us [] all h = tt
subset-AllKnown us (k ∷ ids) all h =
    ground (arith, subset-AllKnown us ids all, elem-existing_users k us all)

AllKnown-subset :
    (us : List User) (ids all : List Key)
    → subset ids all ≡ true
    → AllKnown us ids
    → subset ids (existing_users us all) ≡ true
AllKnown-subset us [] all h known = refl
AllKnown-subset us (k ∷ ids) all h known =
    ground (arith, AllKnown-subset us ids all, elem-existing_users k us all)

subset_refl : (ids : List Key) → subset ids ids ≡ true
subset_refl [] = refl
subset_refl (k ∷ ids) = ground (arith, subset-cons k ids ids, subset_refl ids)

same_set_iff :
    (us : List User) (ids : List Key)
    → (same_set (existing_users us ids) ids ≡ true) ↔ AllKnown us ids
same_set_iff us ids = (
  λ h. subset-AllKnown us ids ids (ground arith),
  λ known.
      ground (arith, existing_subset us ids, AllKnown-subset us ids ids (subset_refl ids) known),
)

abbrev one_grant : String
one_grant = "each user may have only one vehicle grant"

abbrev unknown_user : String
unknown_user = "vehicle grant references an unknown user"

module _ (db : Db) (v : Key) (grants : List VehicleGrantWrite) where
  abbrev replaced : Db
  replaced = record db { grants = replace_grants v grants db.grants }

  replace_inverse :
      (r : List VehicleGrantResponse × Db)
      → replace_vehicle_grants db v grants ≡ ok r
      → (distinct (user_ids grants) ≡ true)
        × (same_set (existing_users db.users (user_ids grants)) (user_ids grants) ≡ true)
        × (r.1 ≡ replaced)
  unfolding replace_vehicle_grants
  replace_inverse r h = ground arith

  replace_succeeds :
      distinct (user_ids grants) ≡ true
      → same_set (existing_users db.users (user_ids grants)) (user_ids grants) ≡ true
      → replace_vehicle_grants db v grants ≡ ok (list_vehicle_grants replaced v, replaced)
  unfolding replace_vehicle_grants
  replace_succeeds d k = ground arith

  replace_repeated :
      (replace_vehicle_grants db v grants ≡ err one_grant) ↔ (distinct (user_ids grants) ≡ false)
  unfolding replace_vehicle_grants
  replace_repeated = (λ h. ground (arith, eq_iff one_grant unknown_user), λ h. ground arith)

  -- Replacing a vehicle's grants succeeds exactly when no user is named twice and every named user
  -- exists; it fails with the error of a repetition exactly when a user is named twice.
  pub replace_vehicle_grants_lem :
      (((r : List VehicleGrantResponse × Db) × (replace_vehicle_grants db v grants ≡ ok r))
        ↔ ((distinct (user_ids grants) ≡ true) × AllKnown db.users (user_ids grants)))
      × ((replace_vehicle_grants db v grants ≡ err "each user may have only one vehicle grant")
          ↔ (distinct (user_ids grants) ≡ false))
  replace_vehicle_grants_lem = (
    (
      λ (r, h).
          let (d, k, _) = replace_inverse r h in (d, (same_set_iff db.users (user_ids grants)).0 k),
      λ (d, k). (
        (list_vehicle_grants replaced v, replaced),
        replace_succeeds d ((same_set_iff db.users (user_ids grants)).1 k),
      ),
    ),
    replace_repeated,
  )

  module _ (resp : List VehicleGrantResponse) (db' : Db)
      (h : replace_vehicle_grants db v grants ≡ ok (resp, db')) where
    -- After the grants of a vehicle are replaced, a user who is not an administrator has on that
    -- vehicle the level that the request names for the user, or none; administrators, and everybody
    -- on every other vehicle, keep the level that they had.
    pub access_level-replace :
        (user : User) (w : Key)
        → access_level db' user w ≡ (
            if v == w && not (is_admin user) && is_some (get_vehicle db w)
            then written_level grants user.id
            else access_level db user w)
    unfolding access_level
    access_level-replace user w =
        rw (replace_inverse (resp, db') h).2
          (ground (arith, grant_level-replace v user.id w grants db.grants))

    -- Where the vehicle exists, replacing its grants keeps the table's constraints: one grant for
    -- each vehicle and user, and every grant on a vehicle that exists.
    replace-constraints :
        vehicle_exists db.vehicles v ≡ true
        → UniqueGrants db.grants
        → GrantsRefer db.vehicles db.grants
        → UniqueGrants db'.grants × GrantsRefer db'.vehicles db'.grants
    unfolding replace_grants
    replace-constraints there unique refer =
        let (d, _, e) = replace_inverse (resp, db') h in
        rw e (
          UniqueGrants-delete-append v db.grants grants unique d,
          All-append (λ (g : VehicleAccessGrant). vehicle_exists db.vehicles g.vehicle_id ≡ true) _
              _ (GrantsRefer-delete v db.vehicles db.grants refer)
              (GrantsRefer-new_grants v db.vehicles grants there),
        )
