-- ===== src/Dashboards.antt =====
-- backend/app/dashboards/routes.py: every user keeps dashboards, one of which may be the default. A
-- layout is given as `model_dump` writes it.
mod Default
mod Deletion
mod Runs
mod Tests
use vehinode.Prelude.{
  String, Bool, true, false, not, ◌&&◌, ◌||◌, Option, none, some, List, [], ◌∷◌, ◌++◌, ◌==◌,
  is_none, if◌then◌else◌, Result, ok, err, HttpError, http, ◌>>=◌,
}
use vehinode.Prelude.Table.{find, select, order_by, update_where, delete_where}
use vehinode.Json.{Fields}
use vehinode.Models.{Key, Instant, User, Dashboard, Db}

pub record DashboardWrite : Type 0 where
  pub name : String
  pub is_default : Bool
  pub layout : Fields

abbrev pub owned_by : Key → Dashboard → Bool
owned_by owner_id d = d.owner_id == owner_id

unfoldable pub list_dashboards : Db → User → List Dashboard
list_dashboards db user =
    order_by (λ (d : Dashboard). d.created_at) (select (owned_by user.id) db.dashboards)

abbrev pub set_default : Bool → Dashboard → Dashboard
set_default b d = record d { is_default = b }

abbrev pub makes_default : DashboardWrite → User → List Dashboard → Bool
makes_default request user table = request.is_default || is_none (find (owned_by user.id) table)

unfoldable pub create_dashboard : Db → User → DashboardWrite → Key → Instant → Dashboard × Db
create_dashboard db user request id now =
    let make_default = makes_default request user db.dashboards in
    let others =
      if make_default
      then update_where (owned_by user.id) (set_default false) db.dashboards
      else db.dashboards in
    let dashboard : Dashboard = record {
      id = id;
      owner_id = user.id;
      name = request.name;
      is_default = make_default;
      layout = request.layout;
      created_at = now;
    } in
    (dashboard, record db { dashboards = others ++ dashboard ∷ [] })

abbrev pub own_dashboard : Key → User → Dashboard → Bool
own_dashboard id user d = d.id == id && d.owner_id == user.id

abbrev pub found_dashboard : Option Dashboard → Result HttpError Dashboard
found_dashboard none = http 404 "dashboard not found"
found_dashboard (some d) = ok d

abbrev pub rewritten : DashboardWrite → Dashboard → Dashboard
rewritten request d = record d {
  name = request.name;
  is_default = request.is_default;
  layout = request.layout;
}

abbrev pub other_of : Key → Key → Dashboard → Bool
other_of owner_id id d = d.owner_id == owner_id && not (d.id == id)

unfoldable pub update_dashboard :
    Key → DashboardWrite → Db → User → Result HttpError (Dashboard × Db)
update_dashboard id request db user = do
  dashboard ← found_dashboard (find (own_dashboard id user) db.dashboards)
  let others =
      if request.is_default
      then update_where (other_of user.id dashboard.id) (set_default false) db.dashboards
      else db.dashboards
  ok (
    rewritten request dashboard,
    record db {
      dashboards =
          update_where (λ (d : Dashboard). d.id == dashboard.id) (rewritten request) others;
    },
  )

abbrev pub first_of : List Dashboard → Option Dashboard
first_of [] = none
first_of (d ∷ ds) = some d

-- The oldest dashboard that is left becomes the default.
unfoldable pub promote : Key → List Dashboard → List Dashboard
promote owner_id table =
    elim (first_of
      (order_by (λ (d : Dashboard). d.created_at) (select (owned_by owner_id) table))) [
        | none ↦ table
        | some next ↦ update_where (λ (d : Dashboard). d.id == next.id) (set_default true) table
      ]

unfoldable pub delete_dashboard : Key → Db → User → Result HttpError Db
unfolding promote
delete_dashboard id db user = do
  dashboard ← found_dashboard (find (own_dashboard id user) db.dashboards)
  let left = delete_where (λ (d : Dashboard). d.id == dashboard.id) db.dashboards
  ok (record db { dashboards = if dashboard.is_default then promote user.id left else left })
