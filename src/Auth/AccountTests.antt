-- ===== src/Auth/AccountTests.antt =====
-- The theorems on the first account at an empty database.
use vehinode.Prelude.{◌≡◌, refl, true, false, some, none, [], ◌∷◌, str_eq, ok, http}
use vehinode.Prelude.Table.{find, any, update_where}
use vehinode.Text.{is_space}
use vehinode.Json.{Json, field, end}
use vehinode.Models.{User, Db}
use vehinode.Access.{is_admin, apply_default_access, get_default_access, default_grants}
use vehinode.Auth.{NewSession, create_session}
use vehinode.Auth.Registration.{
  Library, Fresh, RegisterRequest, SignedIn, normalized, strip_string, lstrip_string, rstrip_string,
  store_user, create_local_user, registration_is_open, register, local_subject, login,
}
use vehinode.Auth.FirstAccount.{register_once}
use vehinode.Auth.SigningIn.{login-register}
use vehinode.Fixtures.{empty_db}

abbrev library : Library
library = record {
  validate_email = some;
  lower = λ s. s;
  hash_password = λ s. s;
  verify_password = str_eq;
  hash_token = λ s. s;
}

abbrev fresh : Fresh
fresh = record {
  user_id = 1;
  identity_id = 2;
  session_id = 3;
  token = "vs";
  csrf_token = "csrf";
  now = 0;
  ip_address = none;
  user_agent = none;
  session_ttl_hours = 24;
}

abbrev request : RegisterRequest
request = record {
  email = "alice@example.org";
  password = "correct horse";
  display_name = " Alice ";
}

abbrev session : NewSession
session = record {
  model = record {
    id = 3;
    token_hash = "vs";
    csrf_hash = "csrf";
    user_id = 1;
    created_at = 0;
    last_seen_at = 0;
    expires_at = 86400000000;
    revoked_at = none;
    ip_address = none;
    user_agent = none;
  };
  token = "vs";
  csrf_token = "csrf";
}

abbrev answer : SignedIn
answer = record { user_id = 1; session = session }

abbrev registered : Db
registered = record empty_db {
  users =
      record {
        id = 1;
        email = "alice@example.org";
        display_name = "Alice";
        is_active = true;
        can_create_profiles = false;
        permissions = field "system.admin" (Json.bool true) end;
        created_at = 0;
      }
      ∷ [];
  identities =
      record {
        id = 2;
        user_id = 1;
        provider = "local";
        subject = "alice@example.org";
        password_hash = some "correct horse";
        created_at = 0;
        last_used_at = none;
      }
      ∷ [];
  sessions = session.model ∷ [];
}

registers : register library fresh false empty_db request ≡ ok (answer, registered)
unfolding register registration_is_open create_local_user strip_string lstrip_string rstrip_string
    is_space any store_user apply_default_access update_where create_session get_default_access
    default_grants find
registers = refl

register_once_example :
    (empty_db.users ≡ [])
    × ((u : User) × (registered.users ≡ u ∷ []) × (is_admin u ≡ true) × (u.is_active ≡ true))
    × ((again : RegisterRequest) (later : Fresh)
        → register library later false registered again ≡ http 403 "initial registration is closed")
register_once_example =
    register_once library fresh false empty_db request answer registered registers

unused : find (local_subject (normalized library request.email)) empty_db.identities ≡ none
unfolding find
unused = refl

login-register_example :
    (session : NewSession) × (after : Db) × (login library fresh registered "alice@example.org"
        "correct horse"
      ≡ ok (record { user_id = 1; session = session }, after))
login-register_example =
    login-register library fresh fresh false empty_db request answer registered registers refl
      unused refl refl
