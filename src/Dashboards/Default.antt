-- ===== src/Dashboards/Default.antt =====
-- The default dashboard of a user, through the three routes that write dashboards.
use vehinode.Prelude.{
  ℕ, ◌+◌, ◌≤◌, ◌≡◌, refl, sym, ap, ◌∙◌, subst, arith, Bool, false, ◌&&◌, none, some, List, [], ◌∷◌,
  ◌++◌, length, ◌==◌, ==_iff, Bool-cases, inl, inr, if◌then◌else◌, ok, bind_inverse,
}
use vehinode.Prelude.Table.{any, find, select, update_where, find-holds, any-of_find}
use vehinode.Prelude.Table.Keys.{UniqueBy, any_key}
use vehinode.Models.{Key, Instant, User, Dashboard, Db}
use vehinode.Dashboards.{
  DashboardWrite, owned_by, set_default, makes_default, create_dashboard, own_dashboard,
  found_dashboard, rewritten, other_of, update_dashboard,
}

abbrev pub is_default_of : Key → Dashboard → Bool
is_default_of owner d = d.owner_id == owner && d.is_default

abbrev pub defaults : Key → List Dashboard → ℕ
defaults owner table = length (select (is_default_of owner) table)

-- Every user has one default dashboard at most.
abbrev pub OneDefault : List Dashboard → Type 0
OneDefault table = (owner : Key) → defaults owner table ≤ 1

abbrev pub UniqueDashboards : List Dashboard → Type 0
UniqueDashboards table = UniqueBy (λ (d : Dashboard). d.id) table

defaults-append :
    (owner : Key) (xs ys : List Dashboard)
    → defaults owner (xs ++ ys) ≡ defaults owner xs + defaults owner ys
unfolding select
defaults-append owner [] ys = omega arith
defaults-append owner (x ∷ xs) ys = ground (arith, defaults-append owner xs ys)

-- The update of the dashboards of one user.
defaults-cleared :
    (user owner : Key) (xs : List Dashboard)
    → defaults owner (update_where (owned_by user) (set_default false) xs)
      ≡ (if user == owner then 0 else defaults owner xs)
unfolding select update_where
defaults-cleared user owner [] = ground arith
defaults-cleared user owner (x ∷ xs) = ground (
  arith,
  defaults-cleared user owner xs,
  ==_iff x.owner_id user,
  ==_iff x.owner_id owner,
  ==_iff user owner,
)

defaults-none :
    (user : Key) (xs : List Dashboard) → find (owned_by user) xs ≡ none → defaults user xs ≡ 0
unfolding select find
defaults-none user [] h = refl
defaults-none user (x ∷ xs) h = ground (arith, defaults-none user xs)

-- A new dashboard leaves each user one default at most.
pub create_dashboard-OneDefault :
    (db : Db) (user : User) (request : DashboardWrite) (id : Key) (now : Instant)
    → OneDefault db.dashboards
    → OneDefault (create_dashboard db user request id now).1.dashboards
unfolding create_dashboard
create_dashboard-OneDefault db user request id now one owner =
    let added : Dashboard = record {
      id = id;
      owner_id = user.id;
      name = request.name;
      is_default = makes_default request user db.dashboards;
      layout = request.layout;
      created_at = now;
    } in
    let cleared = defaults-cleared user.id owner db.dashboards in
    let last : defaults owner (added ∷ [])
        ≡ (if user.id == owner && makes_default request user db.dashboards then 1 else 0) =
      unfold select in ground arith in
    let others =
      if makes_default request user db.dashboards
      then update_where (owned_by user.id) (set_default false) db.dashboards
      else db.dashboards in
    rw (defaults-append owner others (added ∷ [])) (ground (arith, one owner))

module _ (user : Key) (id : Key) (request : DashboardWrite) where
  abbrev moved : List Dashboard → List Dashboard
  moved xs =
      update_where (λ (d : Dashboard). d.id == id) (rewritten request)
        (update_where (other_of user id) (set_default false) xs)

  moved_absent :
      (owner : Key) (xs : List Dashboard)
      → any (λ (d : Dashboard). d.id == id) xs ≡ false
      → defaults owner (moved xs) ≡ (if user == owner then 0 else defaults owner xs)
  unfolding select update_where any
  moved_absent owner [] h = ground arith
  moved_absent owner (x ∷ xs) h = ground (
    arith,
    moved_absent owner xs,
    ==_iff x.owner_id user,
    ==_iff x.owner_id owner,
    ==_iff user owner,
  )

  moved_default :
      (owner : Key) (xs : List Dashboard) {d : Dashboard}
      → UniqueDashboards xs
      → find (λ (x : Dashboard). x.id == id) xs ≡ some d
      → d.owner_id ≡ user
      → defaults owner (moved xs) ≤ (if user == owner then 1 else defaults owner xs)
  unfolding select update_where find
  moved_default owner [] {d} u found own = absurd (ground arith)
  moved_default owner (x ∷ xs) {d} u found own = elim (Bool-cases (x.id == id)) [
    | inl here ↦
        let e : x ≡ d = ground arith in
        let mine : x.owner_id ≡ user = ap (λ (y : Dashboard). y.owner_id) e ∙ own in
        let rest =
          moved_absent owner xs
            (any_key (λ (y : Dashboard). y.id) x.id id xs ((==_iff x.id id).0 here) u.0) in
        ground (arith, ==_iff x.owner_id owner, ==_iff user owner)
    | inr there ↦ ground (
      arith,
      moved_default owner xs {d = d} u.1 (ground arith) own,
      ==_iff x.owner_id user,
      ==_iff x.owner_id owner,
      ==_iff user owner,
    )
  ]

  written_le :
      (owner : Key) (q : Dashboard → Bool) (xs : List Dashboard)
      → request.is_default ≡ false
      → defaults owner (update_where q (rewritten request) xs) ≤ defaults owner xs
  unfolding select update_where
  written_le owner q [] h = omega arith
  written_le owner q (x ∷ xs) h = ground (arith, written_le owner q xs h)

-- Under a primary key a dashboard of the user is the one with its identifier.
pub own_found :
    (id : Key) (user : User) (xs : List Dashboard) {d : Dashboard}
    → UniqueDashboards xs
    → find (own_dashboard id user) xs ≡ some d
    → (find (λ (x : Dashboard). x.id == id) xs ≡ some d) × (d.owner_id ≡ user.id) × (d.id ≡ id)
unfolding find
own_found id user [] {d} u h = absurd (ground arith)
own_found id user (x ∷ xs) {d} u h = elim (Bool-cases (x.id == id)) [
  | inl here ↦ elim (Bool-cases (x.owner_id == user.id)) [
    | inl own ↦
        let e : x ≡ d = ground arith in
        (
          ground arith,
          ap (λ (y : Dashboard). y.owner_id) (sym e) ∙ (==_iff x.owner_id user.id).0 own,
          ap (λ (y : Dashboard). y.id) (sym e) ∙ (==_iff x.id id).0 here,
        )
    | inr other ↦
        let none_left =
          any_key (λ (y : Dashboard). y.id) x.id id xs ((==_iff x.id id).0 here) u.0 in
        let later : find (own_dashboard id user) xs ≡ some d = ground arith in
        let one =
          any-of_find (own_dashboard id user) (λ y. y.id == id) xs later
            (let held = find-holds (own_dashboard id user) xs {a = d} later in ground arith) in
        absurd (ground arith)
  ]
  | inr there ↦
      let ih = own_found id user xs {d = d} u.1 (ground arith) in (ground arith, ih.1, ih.2)
]

-- An edit leaves each user one default at most: the dashboard itself, if it is asked to be.
pub update_dashboard-OneDefault :
    (id : Key) (request : DashboardWrite) (db db' : Db) (user : User) (d : Dashboard)
    → UniqueDashboards db.dashboards
    → OneDefault db.dashboards
    → update_dashboard id request db user ≡ ok (d, db')
    → OneDefault db'.dashboards
unfolding update_dashboard
update_dashboard-OneDefault id request db db' user d unique one h owner =
    let (old, found, rest) =
      bind_inverse (found_dashboard (find (own_dashboard id user) db.dashboards)) _ h in
    let (same, own, named) = own_found id user db.dashboards {d = old} unique (ground arith) in
    elim (Bool-cases request.is_default) [
      | inl make ↦
          let step : moved user.id old.id request db.dashboards ≡ db'.dashboards = ground arith in
          let le = moved_default user.id id request owner db.dashboards {d = old} unique same own in
          subst (λ (t : List Dashboard). defaults owner t ≤ 1) step
            (rw named (ground (arith, one owner)))
      | inr keep ↦
          let step : update_where (λ (x : Dashboard). x.id == old.id) (rewritten request)
                db.dashboards
              ≡ db'.dashboards =
            ground arith in
          let le = written_le user.id id request owner (λ x. x.id == old.id) db.dashboards keep in
          subst (λ (t : List Dashboard). defaults owner t ≤ 1) step (omega (arith, one owner))
    ]
