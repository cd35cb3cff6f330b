-- ===== src/Auth.antt =====
-- backend/app/auth/dependencies.py, and the sessions and passwords of backend/app/auth/services.py: who
-- a request comes from. `hash_token`, `hash_password` and `verify_password`, which call the
-- cryptographic libraries, are arguments.
mod Routes
pub mod Registration
mod FirstAccount
mod SigningIn
mod AccountTests
mod SigningOut
mod Sessions
mod Credentials
mod Tests
use vehinode.Prelude.{
  ℕ, ◌+◌, ◌*◌, String, Bool, true, false, not, ◌&&◌, ◌||◌, Option, none, some, List, [], ◌∷◌, ◌++◌,
  ◌==◌, ltb, str_eq, is_none, if◌then◌else◌, Result, ok, err, HttpError, http, ◌>>=◌, ◌>>◌,
  raise_if,
}
use vehinode.Prelude.Table.{find, update_where}
use vehinode.Models.{
  Key, Instant, seconds, User, AuthenticationIdentity, BrowserSession, Device, Db,
}
use vehinode.Access.{get_user}

pub record AuthenticatedUser : Type 0 where
  pub user : User
  pub session : BrowserSession

-- `value` where it is neither `None` nor empty
abbrev pub non_empty : Option String → Option String
non_empty none = none
non_empty (some s) = if str_eq s "" then none else some s

abbrev pub required_token : Option String → Result HttpError String
required_token none = http 401 "authentication required"
required_token (some raw) = ok raw

abbrev pub find_session : List BrowserSession → String → Option BrowserSession
find_session sessions token_hash =
    find (λ (s : BrowserSession). str_eq s.token_hash token_hash) sessions

abbrev pub is_live : Instant → BrowserSession → Bool
is_live now s = is_none s.revoked_at && not (ltb s.expires_at now)

unfoldable pub live_session : Instant → Option BrowserSession → Result HttpError BrowserSession
live_session now none = http 401 "session expired"
live_session now (some s) = if is_live now s then ok s else http 401 "session expired"

unfoldable pub active_user : Option User → Result HttpError User
active_user none = http 401 "account unavailable"
active_user (some user) = if user.is_active then ok user else http 401 "account unavailable"

abbrev pub see : Instant → BrowserSession → BrowserSession
see now s = record s { last_seen_at = now }

-- The time of the visit is set in the transaction of the request, for its handler to commit.
unfoldable pub current_user :
    (String → String) → Db → Option String → Instant → Result HttpError (AuthenticatedUser × Db)
current_user hash_token db raw_token now = do
  raw ← required_token (non_empty raw_token)
  session ← live_session now (find_session db.sessions (hash_token raw))
  user ← active_user (get_user db session.user_id)
  ok (
    record { user = user; session = see now session },
    record db {
      sessions = update_where (λ (s : BrowserSession). s.id == session.id) (see now) db.sessions;
    },
  )

abbrev pub tokens_equal : (String → String) → String → String → Bool
tokens_equal hash_token expected_hash raw_token = str_eq expected_hash (hash_token raw_token)

abbrev pub csrf_failed : Result HttpError AuthenticatedUser
csrf_failed = http 403 "CSRF validation failed"

-- The header and the cookie, each of which may be missing.
unfoldable pub current_user_write :
    (String → String)
    → AuthenticatedUser
    → Option String
    → Option String
    → Result HttpError AuthenticatedUser
current_user_write hash_token authenticated csrf_token cookie_csrf = elim (non_empty csrf_token) [
  | none ↦ csrf_failed
  | some token ↦ elim (non_empty cookie_csrf) [
    | none ↦ csrf_failed
    | some cookie ↦
        if not (str_eq token cookie)
        then csrf_failed
        else if not (tokens_equal hash_token authenticated.session.csrf_hash token)
        then csrf_failed
        else ok authenticated
  ]
]

-- The argument is what follows "Device " in the Authorization header.
unfoldable pub current_device : (String → String) → Db → Option String → Result HttpError Device
current_device hash_token db none = http 401 "device credential required"
current_device hash_token db (some raw) =
    elim (find (λ (d : Device). str_eq d.credential_hash (hash_token raw)) db.devices) [
      | none ↦ http 401 "invalid device credential"
      | some device ↦
          if not (is_none device.revoked_at)
          then http 401 "invalid device credential"
          else ok device
    ]

pub record NewSession : Type 0 where
  pub model : BrowserSession
  pub token : String
  pub csrf_token : String

-- The two tokens are those that `new_opaque_token` makes; the user agent is given as it is stored.
unfoldable pub create_session :
    (String → String)
    → Db
    → User
    → Option String
    → Option String
    → Key
    → String
    → String
    → ℕ
    → Instant
    → NewSession × Db
create_session hash_token db user ip_address user_agent id token csrf session_ttl_hours now =
    let model : BrowserSession = record {
      id = id;
      token_hash = hash_token token;
      csrf_hash = hash_token csrf;
      user_id = user.id;
      created_at = now;
      last_seen_at = now;
      expires_at = now + seconds (3600 * session_ttl_hours);
      revoked_at = none;
      ip_address = ip_address;
      user_agent = user_agent;
    } in
    (
      record { model = model; token = token; csrf_token = csrf },
      record db { sessions = db.sessions ++ model ∷ [] },
    )

abbrev pub local_identity : Key → AuthenticationIdentity → Bool
local_identity user_id i = i.user_id == user_id && str_eq i.provider "local"

-- The stored hash passes for the password.
abbrev pub is_password : (String → String → Bool) → Option String → String → Bool
is_password verify_password none password = false
is_password verify_password (some stored) password =
    not (str_eq stored "") && verify_password stored password

abbrev pub wrong_password : String
wrong_password = "current password is incorrect"

unfoldable pub change_password :
    (String → String → Bool) → (String → String) → Db → Key → String → String → Result String Db
change_password verify_password hash_password db user_id current new =
    elim (find (local_identity user_id) db.identities) [
      | none ↦ err wrong_password
      | some identity ↦
          if not (is_password verify_password identity.password_hash current)
          then err wrong_password
          else ok (record db {
            identities =
                update_where (λ (i : AuthenticationIdentity). i.id == identity.id)
                  (λ i. record i { password_hash = some (hash_password new) }) db.identities;
          })
    ]

-- The sessions that a change of password ends.
abbrev pub is_other_session : Key → Key → BrowserSession → Bool
is_other_session user_id current_id s =
    s.user_id == user_id && not (s.id == current_id) && is_none s.revoked_at

unfoldable pub revoke_other_sessions : Db → Key → Key → Instant → Db
revoke_other_sessions db user_id current_id now = record db {
  sessions =
      update_where (is_other_session user_id current_id) (λ s. record s { revoked_at = some now })
        db.sessions;
}
