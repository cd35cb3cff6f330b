-- ===== src/Dashboards/Runs.antt =====
-- Dashboards through any sequence of requests.
use vehinode.Prelude.{
  ◌≡◌, refl, sym, subst, arith, Bool, true, false, List, [], ◌∷◌, ◌∙◌, ◌==◌, Bool-cases,
  Option-cases, inl, inr, if◌then◌else◌, ok, bind_inverse,
}
use vehinode.Prelude.Table.{any, find, select, order_by, update_where, delete_where}
use vehinode.Prelude.Table.Keys.{UniqueBy-add, UniqueBy-update_where, UniqueBy-delete_where}
use vehinode.Models.{Key, Instant, User, Dashboard, Db}
use vehinode.Dashboards.{
  DashboardWrite, owned_by, set_default, makes_default, create_dashboard, own_dashboard,
  found_dashboard, rewritten, other_of, update_dashboard, first_of, promote, delete_dashboard,
}
use vehinode.Dashboards.Default.{
  OneDefault, UniqueDashboards, create_dashboard-OneDefault, update_dashboard-OneDefault,
}
use vehinode.Dashboards.Deletion.{delete_dashboard-OneDefault}

-- A request that the server answers; the identifier of a new dashboard is fresh.
pub data Change (db : Db) : Db → Type 0 where
  creates :
      (user : User) (request : DashboardWrite) (id : Key) (now : Instant)
      → any (λ (d : Dashboard). d.id == id) db.dashboards ≡ false
      → Change db (create_dashboard db user request id now).1
  updates :
      {db' : Db} (user : User) (request : DashboardWrite) (id : Key) (d : Dashboard)
      → update_dashboard id request db user ≡ ok (d, db')
      → Change db db'
  deletes :
      {db' : Db} (user : User) (id : Key) → delete_dashboard id db user ≡ ok db' → Change db db'

pub data Reaches (start : Db) : Db → Type 0 where
  here : Reaches start start
  then_step : {db db' : Db} → Reaches start db → Change db db' → Reaches start db'

-- The invariant of the table.
pub record IsOrderly (db : Db) : Type 0 where
  pub unique : UniqueDashboards db.dashboards
  pub one : OneDefault db.dashboards

abbrev key : Dashboard → Key
key d = d.id

any-changed :
    (p q : Dashboard → Bool) (f : Dashboard → Dashboard) (xs : List Dashboard)
    → ((x : Dashboard) → p (f x) ≡ p x)
    → any p (update_where q f xs) ≡ any p xs
unfolding any update_where
any-changed p q f [] k = refl
any-changed p q f (x ∷ xs) k = ground (arith, any-changed p q f xs k, k x)

Unique-if :
    (b : Bool) (q : Dashboard → Bool) (v : Bool) (xs : List Dashboard)
    → UniqueDashboards xs
    → UniqueDashboards (if b then update_where q (set_default v) xs else xs)
Unique-if true q v xs u = UniqueBy-update_where key q (set_default v) xs (λ x. refl) u
Unique-if false q v xs u = u

any-if :
    (b : Bool) (q : Dashboard → Bool) (v : Bool) (id : Key) (xs : List Dashboard)
    → any (λ (d : Dashboard). d.id == id) xs ≡ false
    → any (λ (d : Dashboard). d.id == id) (if b then update_where q (set_default v) xs else xs)
      ≡ false
any-if true q v id xs h =
    any-changed (λ (d : Dashboard). d.id == id) q (set_default v) xs (λ x. refl) ∙ h
any-if false q v id xs h = h

Unique-promote :
    (user : Key) (xs : List Dashboard) → UniqueDashboards xs → UniqueDashboards (promote user xs)
unfolding promote
Unique-promote user xs u =
    elim (Option-cases
      (first_of (order_by (λ (d : Dashboard). d.created_at) (select (owned_by user) xs)))) [
        | inl none_left ↦
            let same : promote user xs ≡ xs = ground arith in subst UniqueDashboards (sym same) u
        | inr (d, e) ↦
            let same : promote user xs
                ≡ update_where (λ (x : Dashboard). x.id == d.id) (set_default true) xs =
              ground arith in
            subst UniqueDashboards (sym same) (
              UniqueBy-update_where key (λ (x : Dashboard). x.id == d.id) (set_default true) xs
                (λ x. refl) u)
      ]

create-Unique :
    (db : Db) (user : User) (request : DashboardWrite) (id : Key) (now : Instant)
    → any (λ (d : Dashboard). d.id == id) db.dashboards ≡ false
    → UniqueDashboards db.dashboards
    → UniqueDashboards (create_dashboard db user request id now).1.dashboards
unfolding create_dashboard
create-Unique db user request id now fresh u =
    UniqueBy-add key
      (if makes_default request user db.dashboards
        then update_where (owned_by user.id) (set_default false) db.dashboards
        else db.dashboards)
      _
      (any-if (makes_default request user db.dashboards) (owned_by user.id) false id db.dashboards
        fresh)
      (Unique-if (makes_default request user db.dashboards) (owned_by user.id) false db.dashboards
        u)

update-Unique :
    (id : Key) (request : DashboardWrite) (db db' : Db) (user : User) (d : Dashboard)
    → update_dashboard id request db user ≡ ok (d, db')
    → UniqueDashboards db.dashboards
    → UniqueDashboards db'.dashboards
unfolding update_dashboard
update-Unique id request db db' user d h u =
    let (old, found, rest) =
      bind_inverse (found_dashboard (find (own_dashboard id user) db.dashboards)) _ h in
    let others =
      if request.is_default
      then update_where (other_of user.id old.id) (set_default false) db.dashboards
      else db.dashboards in
    let step : update_where (λ (x : Dashboard). x.id == old.id) (rewritten request) others
        ≡ db'.dashboards =
      ground arith in
    subst UniqueDashboards step (
      UniqueBy-update_where key (λ (x : Dashboard). x.id == old.id) (rewritten request) others
        (λ x. refl) (Unique-if request.is_default (other_of user.id old.id) false db.dashboards u))

delete-Unique :
    (id : Key) (db db' : Db) (user : User)
    → delete_dashboard id db user ≡ ok db'
    → UniqueDashboards db.dashboards
    → UniqueDashboards db'.dashboards
unfolding delete_dashboard
delete-Unique id db db' user h u =
    let (old, found, rest) =
      bind_inverse (found_dashboard (find (own_dashboard id user) db.dashboards)) _ h in
    let left = delete_where (λ (x : Dashboard). x.id == old.id) db.dashboards in
    let kept = UniqueBy-delete_where key (λ (x : Dashboard). x.id == old.id) db.dashboards u in
    elim (Bool-cases old.is_default) [
      | inl was ↦
          let step : promote user.id left ≡ db'.dashboards = ground arith in
          subst UniqueDashboards step (Unique-promote user.id left kept)
      | inr other ↦
          let step : left ≡ db'.dashboards = ground arith in subst UniqueDashboards step kept
    ]

Change-IsOrderly : {db db' : Db} → Change db db' → IsOrderly db → IsOrderly db'
Change-IsOrderly {db} (creates user request id now fresh) o = record {
  unique = create-Unique db user request id now fresh o.unique;
  one = create_dashboard-OneDefault db user request id now o.one;
}
Change-IsOrderly {db} {db'} (updates user request id d h) o = record {
  unique = update-Unique id request db db' user d h o.unique;
  one = update_dashboard-OneDefault id request db db' user d o.unique o.one h;
}
Change-IsOrderly {db} {db'} (deletes user id h) o = record {
  unique = delete-Unique id db db' user h o.unique;
  one = delete_dashboard-OneDefault id db db' user o.unique o.one h;
}

-- If no user of a table has more than one default dashboard and no two dashboards of it have the same
-- identifier, this stays so through any sequence of requests, of whichever users, that create dashboards
-- with fresh identifiers, edit them and delete them.
pub Reaches-IsOrderly : {start db : Db} → IsOrderly start → Reaches start db → IsOrderly db
Reaches-IsOrderly o here = o
Reaches-IsOrderly o (then_step r s) = Change-IsOrderly s (Reaches-IsOrderly o r)
