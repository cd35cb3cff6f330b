-- ===== src/Auth/SigningIn.antt =====
-- Signing in with the account of backend/app/auth/services.py that was registered first.
use vehinode.Prelude.{
  String, ◌≡◌, refl, sym, ap, ◌∙◌, arith, Bool, true, false, none, some, [], ◌∷◌, ◌++◌, ◌==◌,
  ==_iff, is_some, str_eq, eq_refl, if◌then◌else◌, ok,
}
use vehinode.Prelude.Table.{find, find-append, update_where}
use vehinode.Models.{Key, User, AuthenticationIdentity, Db}
use vehinode.Access.{get_user, apply_default_access}
use vehinode.Auth.{NewSession, create_session, is_password}
use vehinode.Auth.Registration.{
  Library, Fresh, RegisterRequest, SignedIn, signed_in, normalized, strip_string, new_user,
  new_identity, store_user, register, local_subject, authenticate, login,
}
use vehinode.Auth.FirstAccount.{register-IsRegistered, registered-users}

identities-store_user :
    (lib : Library) (fresh : Fresh) (db : Db) (user : User) (password : String)
    → (store_user lib fresh db user password).identities
      ≡ db.identities ++ new_identity lib fresh user.email password ∷ []
unfolding store_user apply_default_access
identities-store_user lib fresh db user password = refl

identities-signed_in :
    (lib : Library) (fresh : Fresh) (db : Db) (user : User)
    → (signed_in lib fresh db user).1.identities ≡ db.identities
unfolding create_session
identities-signed_in lib fresh db user = refl

login-found :
    (lib : Library) (later : Fresh) (db : Db) (email password : String) (i : AuthenticationIdentity)
    (u : User)
    → find (local_subject (normalized lib email)) db.identities ≡ some i
    → is_password lib.verify_password i.password_hash password ≡ true
    → get_user db i.user_id ≡ some u
    → u.is_active ≡ true
    → (after : Db) × (login lib later db email password ≡ ok (signed_in lib later after u))
unfolding login authenticate
login-found lib later db email password i u found passes known active = (
  record db {
    identities =
        update_where (λ (x : AuthenticationIdentity). x.id == i.id)
          (λ x. record x { last_used_at = some later.now }) db.identities;
  },
  ground arith,
)

found-identity :
    (lib : Library) (fresh : Fresh) (db db' : Db) (subject address password : String)
    → db'.identities ≡ db.identities ++ new_identity lib fresh address password ∷ []
    → find (local_subject subject) db.identities ≡ none
    → address ≡ subject
    → find (local_subject subject) db'.identities ≡ some (new_identity lib fresh address password)
unfolding find
found-identity lib fresh db db' subject address password identities unused same =
    let i = new_identity lib fresh address password in
    let own : local_subject subject i ≡ true = ap (λ s. str_eq s subject) same ∙ eq_refl subject in
    let one : find (local_subject subject) (i ∷ []) ≡ some i = ground arith in
    ap (find (local_subject subject)) identities
    ∙ find-append (local_subject subject) db.identities (i ∷ [])
    ∙ ap (λ o. if is_some o then o else find (local_subject subject) (i ∷ [])) unused
    ∙ one

found-user :
    (db : Db) (user : User) (k : Key)
    → db.users ≡ user ∷ []
    → user.id ≡ k
    → get_user db k ≡ some user
unfolding find
found-user db user k users same =
    let own = (==_iff user.id k).1 same in
    let one : find (λ (u : User). u.id == k) (user ∷ []) ≡ some user = ground arith in
    ap (find (λ (u : User). u.id == k)) users ∙ one

module _ (lib : Library) (fresh later : Fresh) (oidc_enabled : Bool) (db : Db)
    (request : RegisterRequest) where
  -- The first account can sign in: after a registration, the same address and password open a session of
  -- the account that was created, if the address is valid as it stands and no identity had it, the hash of
  -- the password is not empty, and the password passes for that hash.
  pub login-register :
      (answer : SignedIn) (db' : Db)
      → register lib fresh oidc_enabled db request ≡ ok (answer, db')
      → lib.validate_email request.email ≡ some request.email
      → find (local_subject (normalized lib request.email)) db.identities ≡ none
      → str_eq (lib.hash_password request.password) "" ≡ false
      → lib.verify_password (lib.hash_password request.password) request.password ≡ true
      → (session : NewSession) × (after : Db) × (login lib later db' request.email request.password
          ≡ ok (record { user_id = answer.user_id; session = session }, after))
  login-register answer db' h valid unused filled verifies =
      let r = register-IsRegistered lib fresh oidc_enabled db request (answer, db') h in
      let account = r.account in
      let address : account.address ≡ normalized lib request.email =
        let email = account.email in ground arith in
      let i = new_identity lib fresh account.address request.password in
      let users = registered-users lib fresh db request (answer, db') r in
      let user = r.created.0 in
      let name = strip_string request.display_name in
      let id : r.created.0.id ≡ fresh.user_id = ap (λ (u : User). u.id) account.user in
      let active : user.is_active ≡ true = ap (λ (u : User). u.is_active) account.user in
      let identities : db'.identities ≡ db.identities ++ i ∷ [] =
        ap (λ (a : SignedIn × Db). a.1.identities) (sym r.answered)
        ∙ identities-signed_in lib fresh r.created.1 r.created.0
        ∙ ap (λ (d : Db). d.identities) account.stored
        ∙ identities-store_user lib fresh db (new_user fresh account.address name true)
            request.password in
      let same : answer.user_id ≡ r.created.0.id =
        ap (λ (a : SignedIn × Db). a.0.user_id) (sym r.answered) in
      let (after, e) =
        login-found lib later db' request.email request.password i user
          (found-identity lib fresh db db' (normalized lib request.email) account.address
            request.password identities unused address)
          (ground arith) (found-user db' user fresh.user_id users id) active in
      let answered = signed_in lib later after user in
      (
        answered.0.session,
        answered.1,
        e
            ∙ ap (λ k. ok (record { user_id = k; session = answered.0.session }, answered.1))
                (sym same),
      )
