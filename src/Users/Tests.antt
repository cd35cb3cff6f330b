-- ===== src/Users/Tests.antt =====
-- The theorems on accounts at the sample data.
use vehinode.Prelude.{◌≡◌, refl, false, some, none, [], ◌∷◌, ok, http}
use vehinode.Prelude.Table.{find, any, update_where, delete_where}
use vehinode.Models.{User, Db}
use vehinode.Json.{get, pop, truthy}
use vehinode.Access.{is_admin, require_admin}
use vehinode.Users.{
  UserUpdate, UserAccountResponse, update_account, remove_account, apply_update, set_admin,
  set_active, guard_last_admin, other_active_admin_exists, admin_permissions, delete_user,
  delete_user_row, assign_profiles,
}
use vehinode.Users.Admins.{UniqueUsers, HasActiveAdmin}
use vehinode.Users.LastAdmin.{update_account-KeepsAdmin, remove_account-KeepsAdmin}
use vehinode.Fixtures.{garage, alice, bob, carol}

-- Alice demotes Bob and suspends him.
abbrev demotion : UserUpdate
demotion = record { is_active = some false; is_admin = some false; can_create_profiles = none }

abbrev bob' : User
unfolding admin_permissions pop
bob' = record bob { permissions = admin_permissions false bob.permissions; is_active = false }

abbrev after : Db
after = record garage { users = alice ∷ bob' ∷ carol ∷ [] }

abbrev edited : UserAccountResponse
edited = record {
  id = 2;
  email = "someone@example.org";
  display_name = "Someone";
  is_active = false;
  is_admin = false;
  can_create_profiles = false;
  created_at = 2;
}

demoted : update_account garage alice 2 demotion ≡ ok (edited, after)
unfolding update_account require_admin is_admin apply_update set_admin set_active guard_last_admin
    other_active_admin_exists admin_permissions assign_profiles get pop truthy find any update_where
demoted = refl

has_admin : HasActiveAdmin garage
unfolding any is_admin get truthy
has_admin = refl

unique : UniqueUsers garage
unfolding any
unique = (refl, (refl, (refl, tt)))

update_account-KeepsAdmin_example : UniqueUsers after × HasActiveAdmin after
update_account-KeepsAdmin_example =
    update_account-KeepsAdmin garage alice 2 unique has_admin demotion edited after demoted

abbrev without_bob : Db
unfolding delete_user_row delete_where update_where
without_bob = delete_user_row garage 2

removed : remove_account garage alice 2 ≡ ok without_bob
unfolding remove_account require_admin is_admin guard_last_admin other_active_admin_exists
    delete_user get truthy find any without_bob
removed = refl

remove_account-KeepsAdmin_example : UniqueUsers without_bob × HasActiveAdmin without_bob
remove_account-KeepsAdmin_example =
    remove_account-KeepsAdmin garage alice 2 unique has_admin without_bob removed

-- The last active administrator cannot be demoted, by nobody.
last_admin :
    update_account after bob 1 demotion ≡ http 400 "the last active administrator must remain"
unfolding update_account require_admin is_admin apply_update set_admin guard_last_admin
    other_active_admin_exists admin_permissions get pop truthy find any update_where
last_admin = refl
