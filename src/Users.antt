-- ===== src/Users.antt =====
-- backend/app/users: services.py and routes.py. Administrators edit and remove accounts, and the
-- last active administrator is protected.
mod Admins
pub mod LastAdmin
pub mod Editing
mod Creation
mod Tests
use vehinode.Prelude.{
  ℕ, String, Bool, true, false, not, ◌&&◌, ◌||◌, Option, none, some, List, [], ◌∷◌, ◌==◌,
  if◌then◌else◌, eq_some, Result, ok, err, HttpError, http, ◌>>=◌, ◌>>◌, raise_if, raise_as,
}
use vehinode.Prelude.Table.{find, any, update_where, delete_where, order_by}
use vehinode.Json
use vehinode.Json.{Json, Fields}
use vehinode.Models.{
  Key, Instant, User, AuthenticationIdentity, BrowserSession, VehicleAccessGrant, Vehicle,
  VehicleProfile, Hook, HookRevision, Dashboard, Db,
}
use vehinode.Access.{system_admin, is_admin, require_admin, get_user}

unfoldable pub list_users : Db → List User
list_users db = order_by (λ (u : User). u.created_at) db.users

-- `_other_active_admin_exists`
unfoldable pub other_active_admin_exists : Db → Key → Bool
other_active_admin_exists db excluding =
    any (λ (c : User). not (c.id == excluding) && (c.is_active && is_admin c)) db.users

-- `_guard_last_admin`
unfoldable pub guard_last_admin : Db → User → Result String (Unit {0})
guard_last_admin db user =
    raise_if (not (other_active_admin_exists db user.id))
      "the last active administrator must remain"

unfoldable pub admin_permissions : Bool → Fields → Fields
admin_permissions admin permissions =
    if admin
    then Json.set system_admin (Json.bool true) permissions
    else Json.pop system_admin permissions

-- An assignment to the columns of a loaded row changes the object and its row.
abbrev pub change_user : Db → Key → (User → User) → Db
change_user db user_id f = record db { users = update_where (λ u. u.id == user_id) f db.users }

unfoldable pub set_admin : Db → User → Bool → Result String (User × Db)
set_admin db user admin = do
  if is_admin user && not admin then guard_last_admin db user else ok tt
  let assign = λ (u : User). record u { permissions = admin_permissions admin u.permissions }
  ok (assign user, change_user db user.id assign)

unfoldable pub set_active : Db → User → Bool → Result String (User × Db)
set_active db user active = do
  if user.is_active && not active && is_admin user then guard_last_admin db user else ok tt
  let assign = λ (u : User). record u { is_active = active }
  ok (assign user, change_user db user.id assign)

-- `ondelete="SET NULL"`
abbrev pub unset : Key → Option Key → Option Key
unset k none = none
unset k (some j) = if j == k then none else some j

-- The row goes, with the rows that its foreign keys cascade to.
unfoldable pub delete_user_row : Db → Key → Db
delete_user_row db k = record db {
  users = delete_where (λ (u : User). u.id == k) db.users;
  identities = delete_where (λ (i : AuthenticationIdentity). i.user_id == k) db.identities;
  sessions = delete_where (λ (s : BrowserSession). s.user_id == k) db.sessions;
  grants = delete_where (λ (g : VehicleAccessGrant). g.user_id == k) db.grants;
  vehicles =
      update_where (λ (v : Vehicle). eq_some v.created_by k)
        (λ v. record v { created_by = unset k v.created_by }) db.vehicles;
  profiles =
      update_where (λ (p : VehicleProfile). eq_some p.created_by k)
        (λ p. record p { created_by = unset k p.created_by }) db.profiles;
  hooks =
      update_where (λ (h : Hook). eq_some h.created_by k)
        (λ h. record h { created_by = unset k h.created_by }) db.hooks;
  revisions = delete_where (λ (r : HookRevision). r.created_by == k) db.revisions;
  dashboards = delete_where (λ (d : Dashboard). d.owner_id == k) db.dashboards;
}

unfoldable pub delete_user : Db → User → Result String Db
delete_user db user = do
  if is_admin user then guard_last_admin db user else ok tt
  ok (delete_user_row db user.id)

pub record UserAccountResponse : Type 0 where
  pub id : Key
  pub email : String
  pub display_name : String
  pub is_active : Bool
  pub is_admin : Bool
  pub can_create_profiles : Bool
  pub created_at : Instant

-- `_response`
abbrev pub account_response : User → UserAccountResponse
account_response user = record {
  id = user.id;
  email = user.email;
  display_name = user.display_name;
  is_active = user.is_active;
  is_admin = is_admin user;
  can_create_profiles = user.can_create_profiles;
  created_at = user.created_at;
}

-- `_owned`
owned_user : Option User → Result HttpError User
owned_user none = http 404 "user not found"
owned_user (some user) = ok user

-- backend/app/users/schemas.py; a field that the request leaves out is `none`.
pub record UserUpdate : Type 0 where
  pub is_active : Option Bool
  pub is_admin : Option Bool
  pub can_create_profiles : Option Bool

-- `value is False`
abbrev pub is_false : Option Bool → Bool
is_false (some false) = true
is_false _ = false

-- `if value is not None: user, db = f(value)`
abbrev pub given :
    Option Bool → (Bool → Result String (User × Db)) → User → Db → Result String (User × Db)
given none f user db = ok (user, db)
given (some b) f user db = f b

unfoldable pub assign_profiles : Option Bool → User → Db → User × Db
assign_profiles none user db = (user, db)
assign_profiles (some b) user db =
    let assign = λ (u : User). record u { can_create_profiles = b } in
    (assign user, change_user db user.id assign)

-- The three assignments of the handler, of which the first two may raise.
unfoldable pub apply_update : Db → User → UserUpdate → Result String (User × Db)
apply_update db user edit = do
  (user₁, db₁) ← given edit.is_admin (set_admin db user) user db
  (user₂, db₂) ← given edit.is_active (set_active db₁ user₁) user₁ db₁
  ok (assign_profiles edit.can_create_profiles user₂ db₂)

-- PATCH /users/{user_id}: the response and the database that is committed.
unfoldable pub update_account :
    Db → User → Key → UserUpdate → Result HttpError (UserAccountResponse × Db)
unfolding owned_user
update_account db auth user_id edit = do
  admin ← require_admin auth
  user ← owned_user (get_user db user_id)
  raise_if (user.id == auth.id && (is_false edit.is_admin || is_false edit.is_active))
      (record { status_code = 400; detail = "an administrator cannot remove their own access" })
  (user', db') ← raise_as 400 (apply_update db user edit)
  ok (account_response user', db')

-- DELETE /users/{user_id}
unfoldable pub remove_account : Db → User → Key → Result HttpError Db
unfolding owned_user
remove_account db auth user_id = do
  admin ← require_admin auth
  user ← owned_user (get_user db user_id)
  raise_if (user.id == auth.id)
      (record { status_code = 400; detail = "an account cannot delete itself" })
  raise_as 400 (delete_user db user)
