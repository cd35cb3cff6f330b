-- ===== src/Dashboards/Deletion.antt =====
-- The deletion of a dashboard, after which another may become the default.
use vehinode.Prelude.{
  ◌+◌, ◌≤◌, ◌≡◌, refl, sym, ap, subst, arith, true, false, some, List, [], ◌∷◌, ◌==◌, ==_iff,
  Bool-cases, Option-cases, inl, inr, if◌then◌else◌, All, IfSome, ok, bind_inverse,
}
use vehinode.Prelude.Table.{any, find, select, order_by, update_where, delete_where}
use vehinode.Prelude.Table.Keys.{any_key, UniqueBy-delete_where}
use vehinode.Prelude.Table.Selection.{All-find, All-mono, All-select, All-order_by}
use vehinode.Models.{Key, User, Dashboard, Db}
use vehinode.Dashboards.{
  owned_by, set_default, own_dashboard, found_dashboard, first_of, promote, delete_dashboard,
}
use vehinode.Dashboards.Default.{is_default_of, defaults, OneDefault, UniqueDashboards, own_found}

defaults-delete_le :
    (owner id : Key) (xs : List Dashboard)
    → defaults owner (delete_where (λ (x : Dashboard). x.id == id) xs) ≤ defaults owner xs
unfolding select delete_where
defaults-delete_le owner id [] = omega arith
defaults-delete_le owner id (x ∷ xs) = ground (arith, defaults-delete_le owner id xs)

-- A row that is deleted was the default or was not.
defaults-delete :
    (owner id : Key) (xs : List Dashboard) {d : Dashboard}
    → find (λ (x : Dashboard). x.id == id) xs ≡ some d
    → defaults owner (delete_where (λ (x : Dashboard). x.id == id) xs)
        + (if is_default_of owner d then 1 else 0)
      ≤ defaults owner xs
unfolding select find delete_where
defaults-delete owner id [] {d} found = absurd (ground arith)
defaults-delete owner id (x ∷ xs) {d} found = elim (Bool-cases (x.id == id)) [
  | inl here ↦
      let e : x ≡ d = ground arith in
      let same : is_default_of owner x ≡ is_default_of owner d = ap (is_default_of owner) e in
      ground (arith, defaults-delete_le owner id xs)
  | inr there ↦ ground (arith, defaults-delete owner id xs {d = d})
]

module _ (k : Key) where
  abbrev promoted : List Dashboard → List Dashboard
  promoted xs = update_where (λ (x : Dashboard). x.id == k) (set_default true) xs

  promoted_absent :
      (owner : Key) (xs : List Dashboard)
      → any (λ (x : Dashboard). x.id == k) xs ≡ false
      → defaults owner (promoted xs) ≡ defaults owner xs
  unfolding select update_where any
  promoted_absent owner [] h = refl
  promoted_absent owner (x ∷ xs) h = ground (arith, promoted_absent owner xs)

  -- Only the owner of the promoted dashboard has one default more.
  promoted_le :
      (owner : Key) (xs : List Dashboard) {d : Dashboard}
      → UniqueDashboards xs
      → find (λ (x : Dashboard). x.id == k) xs ≡ some d
      → (defaults owner (promoted xs) ≤ defaults owner xs + (if d.owner_id == owner then 1 else 0))
        × (1 ≤ defaults d.owner_id (promoted xs))
  unfolding select update_where find
  promoted_le owner [] {d} u found = absurd (ground arith)
  promoted_le owner (x ∷ xs) {d} u found = elim (Bool-cases (x.id == k)) [
    | inl here ↦
        let same : x ≡ d = ground arith in
        let e : x.owner_id ≡ d.owner_id = ap (λ (y : Dashboard). y.owner_id) same in
        let rest =
          promoted_absent owner xs
            (any_key (λ (y : Dashboard). y.id) x.id k xs ((==_iff x.id k).0 here) u.0) in
        (ground arith, ground arith)
    | inr there ↦
        let ih = promoted_le owner xs {d = d} u.1 (ground arith) in (ground arith, ground arith)
  ]

abbrev IsOf : Key → List Dashboard → Dashboard → Type 0
IsOf user xs d = (find (λ (x : Dashboard). x.id == d.id) xs ≡ some d) × (d.owner_id ≡ user)

first_of-All : (P : Dashboard → Type 0) (xs : List Dashboard) → All P xs → IfSome P (first_of xs)
first_of-All P [] h = tt
first_of-All P (x ∷ xs) h = h.0

-- The dashboard that becomes the default is one of the user's that are left.
next_found :
    (user : Key) (xs : List Dashboard)
    → UniqueDashboards xs
    → IfSome
        (IsOf user xs)
        (first_of (order_by (λ (d : Dashboard). d.created_at) (select (owned_by user) xs)))
next_found user xs u =
    let chosen = select (owned_by user) xs in
    first_of-All (IsOf user xs) (order_by (λ (d : Dashboard). d.created_at) chosen) (
      All-order_by (IsOf user xs) (λ (d : Dashboard). d.created_at) chosen
        (All-select (IsOf user xs) (owned_by user) xs (
          All-mono (λ d. find (λ (x : Dashboard). x.id == d.id) xs ≡ some d)
            (λ d. owned_by user d ≡ true → IsOf user xs d) xs
            (λ d found own. (found, (==_iff d.owner_id user).0 own))
            (All-find (λ (d : Dashboard). d.id) xs u))))

promote_le :
    (user owner : Key) (xs : List Dashboard)
    → UniqueDashboards xs
    → defaults owner (promote user xs) ≤ defaults owner xs + (if user == owner then 1 else 0)
unfolding promote
promote_le user owner xs u =
    let found = next_found user xs u in
    let next = first_of (order_by (λ (d : Dashboard). d.created_at) (select (owned_by user) xs)) in
    elim (Option-cases next) [
      | inl none_left ↦
          let same : promote user xs ≡ xs = ground arith in
          subst
            (λ (t : List Dashboard).
              defaults owner t ≤ defaults owner xs + (if user == owner then 1 else 0))
            (sym same) (omega arith)
      | inr (d, e) ↦
          let (same, own) = subst (IfSome (IsOf user xs)) e found in
          let le = promoted_le d.id owner xs {d = d} u same in
          let changed : promote user xs ≡ promoted d.id xs = ground arith in
          subst
            (λ (t : List Dashboard).
              defaults owner t ≤ defaults owner xs + (if user == owner then 1 else 0))
            (sym changed) (ground (arith, le.0, own))
    ]

-- After the deletion of a dashboard each user has one default at most.
pub delete_dashboard-OneDefault :
    (id : Key) (db db' : Db) (user : User)
    → UniqueDashboards db.dashboards
    → OneDefault db.dashboards
    → delete_dashboard id db user ≡ ok db'
    → OneDefault db'.dashboards
unfolding delete_dashboard
delete_dashboard-OneDefault id db db' user unique one h owner =
    let (old, found, rest) =
      bind_inverse (found_dashboard (find (own_dashboard id user) db.dashboards)) _ h in
    let (same, own, named) = own_found id user db.dashboards {d = old} unique (ground arith) in
    let less = defaults-delete owner id db.dashboards {d = old} same in
    let left = delete_where (λ (x : Dashboard). x.id == id) db.dashboards in
    let promoted_left =
      promote_le user.id owner left
        (UniqueBy-delete_where (λ (x : Dashboard). x.id) (λ x. x.id == id) db.dashboards unique) in
    let by_name : delete_where (λ (x : Dashboard). x.id == old.id) db.dashboards ≡ left =
      ap (λ (k : Key). delete_where (λ (x : Dashboard). x.id == k) db.dashboards) named in
    let step : (if old.is_default then promote user.id left else left) ≡ db'.dashboards =
      ground arith in
    subst (λ (t : List Dashboard). defaults owner t ≤ 1) step (ground (arith, one owner))
