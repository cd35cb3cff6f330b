-- ===== src/Users/Creation.antt =====
-- `create_account` of backend/app/users/routes.py: administrators add accounts.
use vehinode.Prelude.{String, Bool, Option, none, some, Result, ok, HttpError, ◌>>=◌, raise_as}
use vehinode.Models.{User, Db}
use vehinode.Access.{require_admin}
use vehinode.Auth.Registration.{Library, Fresh, create_local_user}
use vehinode.Users.{UserAccountResponse, account_response, change_user}

pub record UserCreate : Type 0 where
  pub email : String
  pub display_name : String
  pub password : String
  pub is_admin : Bool
  pub can_create_profiles : Option Bool

abbrev pub may_create : Option Bool → User → User
may_create none user = user
may_create (some b) user = record user { can_create_profiles = b }

unfoldable pub create_account :
    Library → Fresh → Db → User → UserCreate → Result HttpError (UserAccountResponse × Db)
unfolding create_local_user
create_account lib fresh db auth request = do
  admin ← require_admin auth
  (user, db') ← raise_as 400 (
      create_local_user lib fresh db request.email request.password request.display_name
        request.is_admin)
  ok (
    account_response (may_create request.can_create_profiles user),
    change_user db' user.id (may_create request.can_create_profiles),
  )
