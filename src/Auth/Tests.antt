-- ===== src/Auth/Tests.antt =====
-- The theorems on authentication at the sample data.
use vehinode.Prelude.{
  ◌≡◌, ◌↔◌, refl, true, false, String, some, none, [], ◌∷◌, ltb, str_eq, ok, inl, http, arith,
}
use vehinode.Prelude.Table.{find, update_where}
use vehinode.Json.{get, truthy}
use vehinode.Models.{User, AuthenticationIdentity, BrowserSession, Db}
use vehinode.Access.{access_level, level_allows, is_admin, get_user}
use vehinode.Devices.{
  rotate_device, rotate_credential, revoke_device, authorized_device, RotateCredentialResponse,
}
use vehinode.Auth.{
  AuthenticatedUser, current_user, find_session, revoke_other_sessions, change_password,
}
use vehinode.Auth.Routes.{update_password}
use vehinode.Auth.SigningOut.{update_password_effect}
use vehinode.Auth.Sessions.{current_user_lem}
use vehinode.Fixtures.{workshop, device, alice}

abbrev hash_token : String → String
hash_token s = s

abbrev session : String → BrowserSession
session token = record {
  id = 80;
  token_hash = token;
  csrf_hash = "csrf";
  user_id = 1;
  created_at = 0;
  last_seen_at = 0;
  expires_at = 1000;
  revoked_at = none;
  ip_address = none;
  user_agent = none;
}

abbrev phone : BrowserSession
phone = record (session "phone") { id = 81 }

-- Alice has a session on her desk and one on her phone.
abbrev signed_in : Db
signed_in = record workshop { sessions = session "desk" ∷ phone ∷ [] }

current_user_lem_example :
    ((a : AuthenticatedUser) × (db' : Db) × (current_user hash_token signed_in (some "desk") 500
        ≡ ok (a, db')))
    ↔ ((s : BrowserSession) × (u : User) × (find_session signed_in.sessions "desk" ≡ some s)
        × (s.revoked_at ≡ none)
        × (ltb s.expires_at 500 ≡ false)
        × (get_user signed_in s.user_id ≡ some u)
        × (u.is_active ≡ true))
current_user_lem_example = current_user_lem hash_token signed_in "desk" 500 refl

abbrev at_desk : AuthenticatedUser
at_desk = record { user = alice; session = session "desk" }

abbrev login : AuthenticationIdentity
login = record {
  id = 70;
  user_id = 1;
  provider = "local";
  subject = "alice@example.com";
  password_hash = some "old password";
  created_at = 0;
  last_used_at = none;
}

abbrev with_password : Db
with_password = record signed_in { identities = login ∷ [] }

-- Alice changes her password at her desk, which signs her phone out.
abbrev changed : Db
changed = record with_password {
  sessions = session "desk" ∷ record phone { revoked_at = some 500 } ∷ [];
  identities = record login { password_hash = some "new password" } ∷ [];
}

change :
    update_password str_eq hash_token with_password at_desk "old password" "new password" 500
    ≡ ok changed
unfolding update_password change_password revoke_other_sessions find update_where
change = refl

update_password_effect_example :
    (current_user hash_token changed (some "phone") 600 ≡ http 401 "session expired")
    × (find_session changed.sessions "desk" ≡ some (session "desk"))
unfolding find
update_password_effect_example =
    update_password_effect hash_token with_password 500 str_eq hash_token at_desk "old password"
      "new password" changed change "phone" "desk" 600 phone (session "desk") refl refl
      (λ e. omega arith) refl refl (inl refl)

abbrev rotated : Db
rotated = record workshop { devices = rotate_credential hash_token "fresh" device ∷ [] }

abbrev answer : RotateCredentialResponse
answer = record { credential = "fresh"; credential_version = 2 }

rotate : rotate_device hash_token workshop alice 20 "fresh" ≡ ok (answer, rotated)
unfolding rotate_device authorized_device access_level level_allows is_admin get truthy find
    update_where rotate_credential
rotate = refl

abbrev banned : Db
banned = record workshop { devices = record device { revoked_at = some 700 } ∷ [] }

ban : revoke_device workshop alice 20 700 ≡ ok banned
unfolding revoke_device authorized_device access_level level_allows is_admin get truthy find
    update_where
ban = refl
