-- ===== src/Access/Visibility.antt =====
-- The list of vehicles that a user sees, and the check of a single vehicle: two queries on the grants.
use mathlib.Core.Bool.{false≢true}
use vehinode.Prelude.{
  ◌≡◌, refl, ◌∙◌, sym, subst, ==_iff, inl, inr, Bool, true, false, ◌&&◌, List, [], ◌∷◌, map, elem,
  arith, ◌==◌, Bool-cases, is_some, All,
}
use vehinode.Prelude.Table.{select, any, is_some-find}
use vehinode.Models.{Key, User, Vehicle, VehicleAccessGrant, Db}
use vehinode.Access.{grant_level, access_level, visible_vehicle_ids}

-- The foreign key of the grants table to the vehicles.
abbrev pub vehicle_exists : List Vehicle → Key → Bool
vehicle_exists vehicles vehicle_id = any (λ v. v.id == vehicle_id) vehicles

abbrev pub GrantsRefer : List Vehicle → List VehicleAccessGrant → Type 0
GrantsRefer vehicles = All (λ g. vehicle_exists vehicles g.vehicle_id ≡ true)

elem-ids :
    (k : Key) (vs : List Vehicle) → elem k (map (λ (v : Vehicle). v.id) vs) ≡ vehicle_exists vs k
unfolding any
elem-ids k [] = refl
elem-ids k (v ∷ vs) = ground (arith, elem-ids k vs)

elem-select :
    (user_id k : Key) (gs : List VehicleAccessGrant)
    → elem k
        (map (λ (g : VehicleAccessGrant). g.vehicle_id) (select (λ g. g.user_id == user_id) gs))
      ≡ any (λ g. g.user_id == user_id && g.vehicle_id == k) gs
unfolding select any
elem-select user_id k [] = refl
elem-select user_id k (g ∷ gs) = ground (arith, elem-select user_id k gs)

missing :
    (vehicles : List Vehicle) (g : VehicleAccessGrant) (k : Key)
    → g.vehicle_id ≡ k
    → vehicle_exists vehicles g.vehicle_id ≡ true
    → vehicle_exists vehicles k ≡ false
    → ⊥
missing vehicles g k same there e =
    false≢true (sym e ∙ subst (λ x. vehicle_exists vehicles x ≡ true) same there)

-- Without the vehicle there is no grant on it.
no_grant :
    (vehicles : List Vehicle) (user_id k : Key) (gs : List VehicleAccessGrant)
    → GrantsRefer vehicles gs
    → vehicle_exists vehicles k ≡ false
    → any (λ g. g.user_id == user_id && g.vehicle_id == k) gs ≡ false
unfolding any
no_grant vehicles user_id k [] h e = refl
no_grant vehicles user_id k (g ∷ gs) h e = elim (Bool-cases (g.vehicle_id == k)) [
  | inl same ↦ absurd (missing vehicles g k ((==_iff _ _).0 same) h.0 e)
  | inr other ↦ ground (arith, no_grant vehicles user_id k gs h.1 e)
]

module _ (db : Db) (user : User) (vehicle_id : Key) where
  is_some-grant_level :
      is_some (grant_level db.grants user.id vehicle_id)
      ≡ any (λ g. g.user_id == user.id && g.vehicle_id == vehicle_id) db.grants
  unfolding grant_level
  is_some-grant_level =
      ground
        (arith, is_some-find (λ g. g.user_id == user.id && g.vehicle_id == vehicle_id) db.grants)

  -- If every grant refers to an existing vehicle, a vehicle is among those that a user sees exactly
  -- when the user has an access level on it.
  pub visible_iff_access :
      GrantsRefer db.vehicles db.grants
      → elem vehicle_id (visible_vehicle_ids db user) ≡ is_some (access_level db user vehicle_id)
  unfolding visible_vehicle_ids access_level
  visible_iff_access refer = ground (
    arith,
    elem-ids vehicle_id db.vehicles,
    elem-select user.id vehicle_id db.grants,
    is_some-find (λ v. v.id == vehicle_id) db.vehicles,
    is_some-grant_level,
    no_grant db.vehicles user.id vehicle_id db.grants refer,
  )
