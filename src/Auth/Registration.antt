-- ===== src/Auth/Registration.antt =====
-- The accounts of backend/app/auth/services.py, with the routes that register and sign in of
-- backend/app/auth/routes.py. `validate_email` is what pydantic's EmailStr accepts and gives, `lower` is
-- `str.lower`, whose table of letters is left out.
use Prim.Native.Char.{code}
use vehinode.Prelude.{
  ℕ, String, Bool, true, false, not, ◌&&◌, ◌||◌, Option, none, some, List, [], ◌∷◌, ◌++◌, length,
  ◌==◌, ltb, str_eq, if◌then◌else◌, Result, ok, err, HttpError, http, ◌>>=◌, ◌>>◌, raise_if,
  raise_as,
}
use vehinode.Prelude.Table.{find, any, update_where}
use vehinode.Json.{Json, end, field}
use vehinode.Text.{codes, is_space}
use vehinode.Models.{Key, Instant, User, AuthenticationIdentity, Db}
use vehinode.Access.{system_admin, get_user, get_default_access, apply_default_access}
use vehinode.Auth.{NewSession, create_session, is_password}

unfoldable pub lstrip_string : String → String
lstrip_string String.[] = ""
lstrip_string (String.◌∷◌ c s) = elim (is_space (code c)) [
  | true ↦ lstrip_string s
  | false ↦ String.◌∷◌ c s
]

unfoldable pub rstrip_string : String → String
rstrip_string String.[] = ""
rstrip_string (String.◌∷◌ c s) =
    let rest = rstrip_string s in
    if str_eq rest "" && is_space (code c) then "" else String.◌∷◌ c rest

unfoldable pub strip_string : String → String
unfolding lstrip_string rstrip_string
strip_string s = rstrip_string (lstrip_string s)

abbrev pub string_length : String → ℕ
string_length s = length (codes s)

-- The settings of a request that the code does not compute: the hash of passwords, the validation of
-- addresses, and the letters of a language.
pub record Library : Type 0 where
  pub validate_email : String → Option String
  pub lower : String → String
  pub hash_password : String → String
  pub verify_password : String → String → Bool
  pub hash_token : String → String

-- What a handler takes from its surroundings: identifiers, tokens, the clock, and the client.
pub record Fresh : Type 0 where
  pub user_id : Key
  pub identity_id : Key
  pub session_id : Key
  pub token : String
  pub csrf_token : String
  pub now : Instant
  pub ip_address : Option String
  pub user_agent : Option String
  pub session_ttl_hours : ℕ

abbrev pub normalized : Library → String → String
normalized lib email = lib.lower (strip_string email)

abbrev pub valid_email : Library → String → Result String String
valid_email lib email = elim (lib.validate_email email) [
  | none ↦ err "email is invalid"
  | some address ↦ ok (normalized lib address)
]

abbrev pub too_short_or_long : ℕ → ℕ → String → Bool
too_short_or_long least most s = ltb (string_length s) least || ltb most (string_length s)

-- The account before its default access.
abbrev pub new_user : Fresh → String → String → Bool → User
new_user fresh email display_name admin = record {
  id = fresh.user_id;
  email = email;
  display_name = display_name;
  is_active = true;
  can_create_profiles = false;
  permissions = if admin then field system_admin (Json.bool true) end else end;
  created_at = fresh.now;
}

abbrev pub new_identity : Library → Fresh → String → String → AuthenticationIdentity
new_identity lib fresh email password = record {
  id = fresh.identity_id;
  user_id = fresh.user_id;
  provider = "local";
  subject = email;
  password_hash = some (lib.hash_password password);
  created_at = fresh.now;
  last_used_at = none;
}

-- The account as `apply_default_access` leaves it.
abbrev pub with_default : Db → User → User
with_default db user = record user { can_create_profiles = (get_default_access db).profiles_create }

-- The database with the account, its default access and its identity.
unfoldable pub store_user : Library → Fresh → Db → User → String → Db
store_user lib fresh db user password =
    let shared = apply_default_access (record db { users = db.users ++ user ∷ [] }) user in
    record shared {
      identities = shared.identities ++ new_identity lib fresh user.email password ∷ [];
    }

unfoldable pub create_local_user :
    Library → Fresh → Db → String → String → String → Bool → Result String (User × Db)
unfolding strip_string
create_local_user lib fresh db email password display_name admin = do
  address ← valid_email lib email
  let name = strip_string display_name
  raise_if (too_short_or_long 1 120 name) "display name must contain between 1 and 120 characters"
  raise_if (too_short_or_long 12 256 password) "password must contain between 12 and 256 characters"
  raise_if (any (λ (u : User). str_eq (lib.lower u.email) address) db.users)
      "email is already registered"
  let user = new_user fresh address name admin
  ok (with_default db user, store_user lib fresh db user password)

abbrev pub is_nobody : List User → Bool
is_nobody [] = true
is_nobody (u ∷ us) = false

unfoldable pub registration_is_open : Bool → Db → Bool
registration_is_open oidc_enabled db = not oidc_enabled && is_nobody db.users

pub record RegisterRequest : Type 0 where
  pub email : String
  pub password : String
  pub display_name : String

-- The answer of `_login_response`: the account and the two tokens.
pub record SignedIn : Type 0 where
  pub user_id : Key
  pub session : NewSession

abbrev pub signed_in : Library → Fresh → Db → User → SignedIn × Db
signed_in lib fresh db user =
    let (session, db') =
      create_session lib.hash_token db user fresh.ip_address fresh.user_agent fresh.session_id
        fresh.token fresh.csrf_token fresh.session_ttl_hours fresh.now in
    (record { user_id = user.id; session = session }, db')

-- `register`, with `register_first_local_admin`.
unfoldable pub register :
    Library → Fresh → Bool → Db → RegisterRequest → Result HttpError (SignedIn × Db)
unfolding registration_is_open create_local_user store_user
register lib fresh oidc_enabled db request = do
  raise_if (not (registration_is_open oidc_enabled db))
      (record { status_code = 403; detail = "initial registration is closed" })
  (user, db') ←
      raise_as 409
        (create_local_user lib fresh db request.email request.password request.display_name true)
  ok (signed_in lib fresh db' user)

-- `bootstrap_local_admin`: nothing if there is an account.
unfoldable pub bootstrap_local_admin :
    Library → Fresh → Db → RegisterRequest → Result String (Option User × Db)
unfolding create_local_user store_user
bootstrap_local_admin lib fresh db request =
    if not (is_nobody db.users)
    then ok (none, db)
    else create_local_user lib fresh db request.email request.password request.display_name true
      >>= λ created. ok (some created.0, created.1)

abbrev pub local_subject : String → AuthenticationIdentity → Bool
local_subject subject i = str_eq i.provider "local" && str_eq i.subject subject

-- The identity that the credentials belong to, and the database with the time of its use.
unfoldable pub authenticate :
    Library → Instant → Db → String → String → Option (AuthenticationIdentity × Db)
unfolding strip_string
authenticate lib now db subject credential =
    elim (find (local_subject (normalized lib subject)) db.identities) [
      | none ↦ none
      | some identity ↦
          if not (is_password lib.verify_password identity.password_hash credential)
          then none
          else some (
            identity,
            record db {
              identities =
                  update_where (λ (i : AuthenticationIdentity). i.id == identity.id)
                    (λ i. record i { last_used_at = some now }) db.identities;
            },
          )
    ]

abbrev pub known_identity :
    Option (AuthenticationIdentity × Db) → Result HttpError (AuthenticationIdentity × Db)
known_identity none = http 401 "invalid email or password"
known_identity (some found) = ok found

abbrev pub available_user : Option User → Result HttpError User
available_user none = http 401 "account unavailable"
available_user (some user) = if user.is_active then ok user else http 401 "account unavailable"

unfoldable pub login : Library → Fresh → Db → String → String → Result HttpError (SignedIn × Db)
unfolding authenticate
login lib fresh db email password = do
  (identity, db') ← known_identity (authenticate lib fresh.now db email password)
  user ← available_user (get_user db' identity.user_id)
  ok (signed_in lib fresh db' user)
