-- ===== src/Auth/FirstAccount.antt =====
-- Registration and the first administrator: backend/app/auth/services.py and routes.py.
use vehinode.Prelude.{
  String, ◌≡◌, refl, sym, ap, ◌∙◌, arith, Bool, true, false, not, List, [], ◌∷◌, ◌++◌, ◌==◌,
  ==_refl, str_eq, Result, ok, err, HttpError, http, bind_inverse, raise_if, raise_as, Ensures-ok,
}
use vehinode.Prelude.Table.{any, update_where}
use vehinode.Json.{get, truthy}
use vehinode.Models.{User, Db}
use vehinode.Access.{is_admin, get_default_access, apply_default_access}
use vehinode.Auth.{create_session}
use vehinode.Auth.Registration.{
  Library, Fresh, RegisterRequest, SignedIn, signed_in, valid_email, too_short_or_long,
  strip_string, new_user, with_default, store_user, create_local_user, is_nobody,
  registration_is_open, register,
}

nobody : (us : List User) → is_nobody us ≡ true → us ≡ []
nobody [] h = refl
nobody (u ∷ us) h = absurd (ground arith)

guarded : (b : Bool) (e : HttpError) {a : Unit {0}} → raise_if (not b) e ≡ ok a → b ≡ true
guarded true e h = refl
guarded false e h = absurd (ground arith)

no_users :
    (oidc_enabled : Bool) (db : Db) → registration_is_open oidc_enabled db ≡ true → db.users ≡ []
unfolding registration_is_open
no_users oidc_enabled db h = nobody db.users (ground arith)

-- What is left of an account that the code creates.
pub record IsCreated (lib : Library) (fresh : Fresh) (db : Db) (request : RegisterRequest)
    (created : User × Db) : Type 0 where
  pub address : String
  pub email : valid_email lib request.email ≡ ok address
  pub user :
      created.0 ≡ with_default db (new_user fresh address (strip_string request.display_name) true)
  pub stored :
      created.1
      ≡ store_user lib fresh db
          (new_user fresh address (strip_string request.display_name) true)
          request.password

raised_ok : {A : Type 0} (m : Result String A) {a : A} → raise_as 409 m ≡ ok a → m ≡ ok a
raised_ok (ok b) {a} h = cc
raised_ok (err e) {a} h = absurd (ground arith)

create_local_user-IsCreated :
    (lib : Library) (fresh : Fresh) (db : Db) (request : RegisterRequest) (created : User × Db)
    → create_local_user lib fresh db request.email request.password request.display_name true
      ≡ ok created
    → IsCreated lib fresh db request created
unfolding create_local_user
create_local_user-IsCreated lib fresh db request created h =
    let (address, e₁, h₁) = bind_inverse (valid_email lib request.email) _ h in
    let name = strip_string request.display_name in
    let (_, e₂, h₂) =
      bind_inverse
        (raise_if (too_short_or_long 1 120 name)
          "display name must contain between 1 and 120 characters")
        _ h₁ in
    let (_, e₃, h₃) =
      bind_inverse
        (raise_if (too_short_or_long 12 256 request.password)
          "password must contain between 12 and 256 characters")
        _ h₂ in
    let (_, e₄, last) =
      bind_inverse
        (raise_if (any (λ (u : User). str_eq (lib.lower u.email) address) db.users)
          "email is already registered")
        _ h₃ in
    let made : IsCreated lib fresh db request (
      with_default db (new_user fresh address (strip_string request.display_name) true),
      store_user lib fresh db (new_user fresh address (strip_string request.display_name) true)
          request.password,
    ) =
      record { address = address; email = e₁; user = refl; stored = refl } in
    Ensures-ok (IsCreated lib fresh db request) (ok _) made last

-- What `register` does when it answers.
pub record IsRegistered (lib : Library) (fresh : Fresh) (db : Db) (request : RegisterRequest)
    (answer : SignedIn × Db) : Type 0 where
  pub nobody : db.users ≡ []
  pub created : User × Db
  pub account : IsCreated lib fresh db request created
  pub answered : signed_in lib fresh created.1 created.0 ≡ answer

pub register-IsRegistered :
    (lib : Library) (fresh : Fresh) (oidc_enabled : Bool) (db : Db) (request : RegisterRequest)
    (answer : SignedIn × Db)
    → register lib fresh oidc_enabled db request ≡ ok answer
    → IsRegistered lib fresh db request answer
unfolding register
register-IsRegistered lib fresh oidc_enabled db request answer h =
    let (_, e₁, h₁) = bind_inverse (raise_if (not (registration_is_open oidc_enabled db)) _) _ h in
    let (created, e₂, last) =
      bind_inverse
        (raise_as 409
          (create_local_user lib fresh db request.email request.password request.display_name true))
        _ h₁ in
    record {
      nobody = no_users oidc_enabled db (guarded (registration_is_open oidc_enabled db) _ e₁);
      created = created;
      account = create_local_user-IsCreated lib fresh db request created (
          raised_ok
            (create_local_user lib fresh db request.email request.password request.display_name
              true)
            e₂);
      answered = ground arith;
    }

update-alone :
    (f : User → User) (user : User) (us : List User)
    → us ≡ []
    → update_where (λ (u : User). u.id == user.id) f (us ++ user ∷ []) ≡ f user ∷ []
unfolding update_where
update-alone f user [] empty = ground (arith, ==_refl user.id)
update-alone f user (u ∷ us) empty = absurd (ground arith)

-- An account that is added to an empty table is alone there.
users-store_user :
    (lib : Library) (fresh : Fresh) (db : Db) (user : User) (password : String)
    → db.users ≡ []
    → (store_user lib fresh db user password).users ≡ with_default db user ∷ []
unfolding store_user apply_default_access get_default_access
users-store_user lib fresh db user password empty =
    update-alone (with_default db) user db.users empty

users-signed_in :
    (lib : Library) (fresh : Fresh) (db : Db) (user : User)
    → (signed_in lib fresh db user).1.users ≡ db.users
unfolding create_session
users-signed_in lib fresh db user = refl

pub registered-users :
    (lib : Library) (fresh : Fresh) (db : Db) (request : RegisterRequest) (answer : SignedIn × Db)
    → (r : IsRegistered lib fresh db request answer) → answer.1.users ≡ r.created.0 ∷ []
registered-users lib fresh db request answer r =
    let name = strip_string request.display_name in
    let user = new_user fresh r.account.address name true in
    ap (λ (a : SignedIn × Db). a.1.users) (sym r.answered)
    ∙ users-signed_in lib fresh r.created.1 r.created.0
    ∙ ap (λ (d : Db). d.users) r.account.stored
    ∙ users-store_user lib fresh db user request.password r.nobody
    ∙ ap (λ u. u ∷ []) (sym r.account.user)

new_user-is_admin :
    (fresh : Fresh) (db : Db) (email name : String)
    → is_admin (with_default db (new_user fresh email name true)) ≡ true
unfolding is_admin get truthy
new_user-is_admin fresh db email name = refl

module _ (lib : Library) (fresh : Fresh) (oidc_enabled : Bool) (db : Db)
    (request : RegisterRequest) where
  -- Registration succeeds only as long as there is no account. The account that it creates is then the
  -- only one and an active administrator, and in the database that it leaves every registration is refused.
  pub register_once :
      (answer : SignedIn) (db' : Db)
      → register lib fresh oidc_enabled db request ≡ ok (answer, db')
      → (db.users ≡ [])
        × ((u : User) × (db'.users ≡ u ∷ []) × (is_admin u ≡ true) × (u.is_active ≡ true))
        × ((again : RegisterRequest) (later : Fresh)
            → register lib later oidc_enabled db' again ≡ http 403 "initial registration is closed")
  unfolding register registration_is_open
  register_once answer db' h =
      let r = register-IsRegistered lib fresh oidc_enabled db request (answer, db') h in
      let account = r.account in
      let users = registered-users lib fresh db request (answer, db') r in
      (
        r.nobody,
        (
          r.created.0,
          users,
          ap is_admin account.user
              ∙ new_user-is_admin fresh db account.address (strip_string request.display_name),
          ap (λ (u : User). u.is_active) account.user,
        ),
        λ again later. ground arith,
      )
