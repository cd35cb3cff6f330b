-- ===== src/Vehicles/Listing.antt =====
-- The list of vehicles, and the check of a single one.
use vehinode.Prelude.{
  ◌≡◌, ◌↔◌, sym, ◌∙◌, arith, true, ◌&&◌, List, [], ◌∷◌, elem, ◌==◌, ==_iff, is_some, Option-cases,
  inl, inr, ok,
}
use mathlib.Core.Path.{ap₂}
use vehinode.Prelude.Table.{any, select, order_by, is_some-find}
use vehinode.Prelude.Table.Orders.{any-order_by}
use vehinode.Prelude.Table.Selection.{IsOrdered, order_by-IsOrdered}
use vehinode.Models.{Key, User, Vehicle, view, Db}
use vehinode.Access.{
  get_vehicle, access_level, visible_vehicle_ids, AuthorizedVehicle, level_allows,
  authorize_vehicle,
}
use vehinode.Access.Visibility.{GrantsRefer, visible_iff_access}
use vehinode.Vehicles.{list_vehicles}

any-select-elem :
    (ks : List Key) (k : Key) (vs : List Vehicle)
    → any (λ (v : Vehicle). v.id == k) (select (λ (v : Vehicle). elem v.id ks) vs)
      ≡ (elem k ks && any (λ (v : Vehicle). v.id == k) vs)
unfolding any select
any-select-elem ks k [] = ground arith
any-select-elem ks k (v ∷ vs) = ground (arith, any-select-elem ks k vs, ==_iff v.id k)

authorized_iff :
    (db : Db) (user : User) (k : Key)
    → (((a : AuthorizedVehicle) × (authorize_vehicle db user k view ≡ ok a))
        ↔ ((is_some (access_level db user k) && is_some (get_vehicle db k)) ≡ true))
unfolding authorize_vehicle level_allows
authorized_iff db user k = (
  λ (a, h). ground arith,
  λ both. elim (Option-cases (get_vehicle db k)) [
    | inl missing ↦ absurd (ground arith)
    | inr (v, found) ↦ elim (Option-cases (access_level db user k)) [
      | inl none_held ↦ absurd (ground arith)
      | inr (level, held) ↦ (record { vehicle = v; level = level }, ground arith)
    ]
  ],
)

-- If every grant refers to an existing vehicle, a user's list holds exactly the vehicles that the check
-- lets the user view, the oldest first.
pub list_vehicles_lem :
    (db : Db) (user : User) (k : Key)
    → GrantsRefer db.vehicles db.grants
    → ((any (λ (v : Vehicle). v.id == k) (list_vehicles db user) ≡ true)
        ↔ ((a : AuthorizedVehicle) × (authorize_vehicle db user k view ≡ ok a)))
      × IsOrdered (λ (v : Vehicle). v.created_at) (list_vehicles db user)
unfolding list_vehicles
list_vehicles_lem db user k refer =
    let ks = visible_vehicle_ids db user in
    let chosen = select (λ (v : Vehicle). elem v.id ks) db.vehicles in
    let listed : any (λ (v : Vehicle). v.id == k) (order_by (λ (v : Vehicle). v.created_at) chosen)
        ≡ (is_some (access_level db user k) && is_some (get_vehicle db k)) =
      any-order_by (λ (v : Vehicle). v.id == k) (λ v. v.created_at) chosen
      ∙ any-select-elem ks k db.vehicles
      ∙ ap₂ ◌&&◌ (visible_iff_access db user k refer)
          (sym (is_some-find (λ (v : Vehicle). v.id == k) db.vehicles)) in
    let (from, to) = authorized_iff db user k in
    (
      (λ h. to (sym listed ∙ h), λ h. listed ∙ from h),
      order_by-IsOrdered (λ (v : Vehicle). v.created_at) chosen,
    )
