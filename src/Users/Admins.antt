-- ===== src/Users/Admins.antt =====
-- Administrators who are active, and what each step of an edit does to them.
use vehinode.Prelude.{
  String, ◌≡◌, refl, Bool, true, false, not, ◌&&◌, ◌||◌, some, none, Option, List, [], ◌∷◌, arith,
  ◌==◌, Bool-cases, inl, inr, if◌then◌else◌, Result, ok, sym, subst, Ensures, Ensures-bind, ==_iff,
  ◌>>◌, ◌⊎◌,
}
use vehinode.Prelude.Table.{any, update_where, delete_where, find-update_where, find-holds}
use vehinode.Prelude.Table.Keys.{UniqueBy, any_unique, UniqueBy-update_where, UniqueBy-delete_where}
use vehinode.Json.{Json, truthy}
use vehinode.Json.Laws.{get-set_self, get-pop_self}
use vehinode.Models.{Key, User, Db}
use vehinode.Access.{system_admin, is_admin, get_user}
use vehinode.Users.{
  UserUpdate, other_active_admin_exists, guard_last_admin, admin_permissions, change_user,
  set_admin, set_active, delete_user, delete_user_row, given, assign_profiles, apply_update,
}

abbrev pub is_active_admin : User → Bool
is_active_admin u = u.is_active && is_admin u

abbrev pub HasActiveAdmin : Db → Type 0
HasActiveAdmin db = any is_active_admin db.users ≡ true

-- The primary key of the users table.
abbrev pub UniqueUsers : Db → Type 0
UniqueUsers db = UniqueBy (λ (u : User). u.id) db.users

pub is_admin-admin_permissions :
    (u : User) (admin : Bool)
    → is_admin (record u { permissions = admin_permissions admin u.permissions }) ≡ admin
unfolding is_admin admin_permissions truthy
is_admin-admin_permissions u true =
    ground (arith, get-set_self system_admin (Json.bool true) u.permissions)
is_admin-admin_permissions u false = ground (arith, get-pop_self system_admin u.permissions)

is_admin-active : (u : User) (b : Bool) → is_admin (record u { is_active = b }) ≡ is_admin u
unfolding is_admin
is_admin-active u b = refl

is_admin-profiles :
    (u : User) (b : Bool)
    → is_active_admin (record u { can_create_profiles = b }) ≡ is_active_admin u
unfolding is_admin
is_admin-profiles u b = refl

module _ (p : User → Bool) (k : Key) (f : User → User) where
  -- Whoever passes the test beside the row that changes still does.
  any-change_other :
      (us : List User)
      → any (λ c. not (c.id == k) && p c) us ≡ true
      → any p (update_where (λ u. u.id == k) f us) ≡ true
  unfolding any update_where
  any-change_other [] h = h
  any-change_other (u ∷ us) h = ground (arith, any-change_other us)

  any-change_keep :
      (us : List User)
      → ((u : User) → p u ≡ true → p (f u) ≡ true)
      → any p us ≡ true
      → any p (update_where (λ u. u.id == k) f us) ≡ true
  unfolding any update_where
  any-change_keep [] keep h = h
  any-change_keep (u ∷ us) keep h = ground (arith, any-change_keep us keep, keep u)

any-delete_other :
    (p : User → Bool) (k : Key) (us : List User)
    → any (λ c. not (c.id == k) && p c) us ≡ true
    → any p (delete_where (λ u. u.id == k) us) ≡ true
unfolding any delete_where
any-delete_other p k [] h = h
any-delete_other p k (u ∷ us) h = ground (arith, any-delete_other p k us)

any_split :
    (p : User → Bool) (k : Key) (us : List User)
    → any p us ≡ (any (λ c. c.id == k && p c) us || any (λ c. not (c.id == k) && p c) us)
unfolding any
any_split p k [] = refl
any_split p k (u ∷ us) = ground (arith, any_split p k us)

-- A user who is no active administrator is not the one that the invariant rests on.
other_admin :
    (db : Db) (user : User)
    → UniqueUsers db
    → get_user db user.id ≡ some user
    → HasActiveAdmin db
    → is_active_admin user ≡ false
    → other_active_admin_exists db user.id ≡ true
unfolding other_active_admin_exists
other_admin db user unique found h e = ground (
  arith,
  any_split is_active_admin user.id db.users,
  any_unique (λ (u : User). u.id) user.id is_active_admin db.users {a = user} unique found,
)

-- What the services expect of a loaded row and keep of it.
pub record Loaded (db : Db) (user : User) : Type 0 where
  pub unique : UniqueUsers db
  pub found : get_user db user.id ≡ some user
  pub has_admin : HasActiveAdmin db

module _ (db : Db) (user : User) (f : User → User) (same_id : (u : User) → (f u).id ≡ u.id) where
  get_user-change :
      get_user db user.id ≡ some user → get_user (change_user db user.id f) user.id ≡ some (f user)
  get_user-change found = ground (
    arith,
    find-update_where (λ (u : User). u.id == user.id) (λ u. u.id == user.id) f db.users
        (λ u. rw (same_id u)),
  )

  -- Assigning to a loaded row keeps the key and leaves the new row loaded.
  change-Loaded :
      Loaded db user
      → HasActiveAdmin (change_user db user.id f)
      → Loaded (change_user db user.id f) (f user)
  change-Loaded l h = record {
    unique =
        UniqueBy-update_where (λ (u : User). u.id) (λ u. u.id == user.id) f db.users same_id
          l.unique;
    found =
        subst (λ k. get_user (change_user db user.id f) k ≡ some (f user)) (sym (same_id user))
          (get_user-change l.found);
    has_admin = h;
  }

-- What every committed database keeps.
abbrev pub KeepsAdmin : Db → Type 0
KeepsAdmin db = UniqueUsers db × HasActiveAdmin db

-- The pair of a row and its database, as the services hand them on.
abbrev pub LoadedPair : User × Db → Type 0
LoadedPair (user, db) = Loaded db user

module _ (db : Db) (user : User) (l : Loaded db user) where
  other_after_change :
      (f : User → User) (same_id : (u : User) → (f u).id ≡ u.id)
      → other_active_admin_exists db user.id ≡ true
      → Loaded (change_user db user.id f) (f user)
  unfolding other_active_admin_exists
  other_after_change f same_id h =
      change-Loaded db user f same_id l (any-change_other is_active_admin user.id f db.users h)

  keep_after_change :
      (f : User → User) (same_id : (u : User) → (f u).id ≡ u.id)
      → ((u : User) → is_active_admin u ≡ true → is_active_admin (f u) ≡ true)
      → Loaded (change_user db user.id f) (f user)
  keep_after_change f same_id keep =
      change-Loaded db user f same_id l
        (any-change_keep is_active_admin user.id f db.users keep l.has_admin)

  -- Past the guard, either it was not asked for or another active administrator exists.
  guarded :
      {B : Type 0} (Q : B → Type 0) (m : Result String B) (asked : Bool)
      → ((asked ≡ false) ⊎ (other_active_admin_exists db user.id ≡ true) → Ensures Q m)
      → Ensures Q ((if asked then guard_last_admin db user else ok tt) >> m)
  unfolding guard_last_admin
  guarded Q m true k = elim (Bool-cases (other_active_admin_exists db user.id)) [
    | inl other ↦ rw other (k (inr other))
    | inr alone ↦ rw alone tt
  ]
  guarded Q m false k = k (inl refl)

  -- A change that takes the row out of the active administrators, behind its guard.
  demote :
      (f : User → User) (same_id : (u : User) → (f u).id ≡ u.id) (asked : Bool)
      → (asked ≡ false → is_active_admin user ≡ false)
      → (asked ≡ false) ⊎ (other_active_admin_exists db user.id ≡ true)
      → Loaded (change_user db user.id f) (f user)
  demote f same_id asked no_admin (inl e) =
      other_after_change f same_id (other_admin db user l.unique l.found l.has_admin (no_admin e))
  demote f same_id asked no_admin (inr other) = other_after_change f same_id other

  set_admin-Loaded : (b : Bool) → Ensures LoadedPair (set_admin db user b)
  unfolding set_admin
  set_admin-Loaded true = guarded LoadedPair _ (is_admin user && false) λ _.
      keep_after_change _ (λ u. refl) (λ u h. ground (arith, is_admin-admin_permissions u true))
  set_admin-Loaded false =
      guarded LoadedPair _ (is_admin user && true)
        λ reason. demote _ (λ u. refl) (is_admin user && true) (λ e. ground arith) reason

  set_active-Loaded : (b : Bool) → Ensures LoadedPair (set_active db user b)
  unfolding set_active
  set_active-Loaded true =
      guarded LoadedPair _ (user.is_active && false && is_admin user)
        λ _. keep_after_change _ (λ u. refl) (λ u h. ground (arith, is_admin-active u true))
  set_active-Loaded false = guarded LoadedPair _ (user.is_active && true && is_admin user) λ reason.
      demote _ (λ u. refl) (user.is_active && true && is_admin user) (λ e. ground arith) reason

  other_after_delete :
      other_active_admin_exists db user.id ≡ true
      → UniqueUsers (delete_user_row db user.id) × HasActiveAdmin (delete_user_row db user.id)
  unfolding other_active_admin_exists delete_user_row
  other_after_delete other = (
    UniqueBy-delete_where (λ (u : User). u.id) (λ u. u.id == user.id) db.users l.unique,
    any-delete_other is_active_admin user.id db.users other,
  )

  pub delete_user-Keeps : Ensures KeepsAdmin (delete_user db user)
  unfolding delete_user
  delete_user-Keeps = guarded KeepsAdmin _ (is_admin user) λ reason. elim reason [
    | inl e ↦ other_after_delete (other_admin db user l.unique l.found l.has_admin (ground arith))
    | inr other ↦ other_after_delete other
  ]

assign_profiles-Loaded :
    (b : Option Bool) (user : User) (db : Db)
    → Loaded db user
    → LoadedPair (assign_profiles b user db)
unfolding assign_profiles
assign_profiles-Loaded none user db l = l
assign_profiles-Loaded (some b) user db l =
    keep_after_change db user l _ (λ u. refl) (λ u h. rw (is_admin-profiles u b) h)

given-Loaded :
    (b : Option Bool) (f : Bool → Result String (User × Db)) (user : User) (db : Db)
    → Loaded db user
    → ((b : Bool) → Ensures LoadedPair (f b))
    → Ensures LoadedPair (given b f user db)
given-Loaded none f user db l h = l
given-Loaded (some b) f user db l h = h b

pub apply_update-Loaded :
    (db : Db) (user : User) (edit : UserUpdate)
    → Loaded db user
    → Ensures LoadedPair (apply_update db user edit)
unfolding apply_update
apply_update-Loaded db user edit l =
    Ensures-bind LoadedPair LoadedPair _ _
      (given-Loaded edit.is_admin (set_admin db user) user db l (set_admin-Loaded db user l))
      λ (user₁, db₁) l₁.
        Ensures-bind LoadedPair LoadedPair _ _
          (given-Loaded edit.is_active (set_active db₁ user₁) user₁ db₁ l₁
            (set_active-Loaded db₁ user₁ l₁))
          λ (user₂, db₂) l₂. assign_profiles-Loaded edit.can_create_profiles user₂ db₂ l₂

pub loaded :
    (db : Db) (k : Key) (user : User)
    → UniqueUsers db
    → HasActiveAdmin db
    → get_user db k ≡ some user
    → Loaded db user
loaded db k user unique has_admin e = record {
  unique = unique;
  found =
      subst (λ j. get_user db j ≡ some user)
        (sym ((==_iff user.id k).0 (find-holds (λ (u : User). u.id == k) db.users e))) e;
  has_admin = has_admin;
}
