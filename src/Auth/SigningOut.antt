-- ===== src/Auth/SigningOut.antt =====
-- What the routes of backend/app/auth/routes.py that end sessions do to later requests.
use vehinode.Prelude.{
  ◌≡◌, ◌≢◌, ◌⊎◌, refl, sym, subst, arith, String, Bool, false, some, Option-cases, List, inl, inr,
  ◌==◌, ==_refl, ==_iff, str_eq, Result, ok, err, http,
}
use vehinode.Prelude.Table.{find, update_where, find-update_where-some, find-holds}
use vehinode.Models.{Key, Instant, BrowserSession, Db}
use vehinode.Auth.{
  AuthenticatedUser, local_identity, change_password, revoke_other_sessions, find_session,
  current_user, live_session,
}
use vehinode.Auth.Sessions.{revoke_other_sessions_effect}
use vehinode.Auth.Routes.{revoke_at, logout, update_password, own_session, revoke_session}

module _ (hash_token : String → String) (db : Db) (now : Instant) where
  abbrev without : Key → Db
  without session_id = record db {
    sessions =
        update_where (λ (x : BrowserSession). x.id == session_id) (revoke_at now) db.sessions;
  }

  -- The token of a session that was revoked is refused.
  without-refused :
      (raw : String) (later : Instant) (s : BrowserSession)
      → str_eq raw "" ≡ false
      → find_session db.sessions (hash_token raw) ≡ some s
      → current_user hash_token (without s.id) (some raw) later ≡ http 401 "session expired"
  unfolding current_user live_session
  without-refused raw later s given found = ground (
    arith,
    find-update_where-some (λ (x : BrowserSession). str_eq x.token_hash (hash_token raw))
        (λ x. x.id == s.id) (revoke_at now) db.sessions {a = s} (λ x. refl) found,
    ==_refl s.id,
  )

  -- Once a user has signed out, the token of the session is refused at any time.
  pub logout_effect :
      (auth : AuthenticatedUser) (raw : String) (later : Instant) (s : BrowserSession)
      → str_eq raw "" ≡ false
      → find_session db.sessions (hash_token raw) ≡ some s
      → s.id ≡ auth.session.id
      → current_user hash_token (logout db auth now) (some raw) later ≡ http 401 "session expired"
  unfolding logout
  logout_effect auth raw later s given found own =
      subst
        (λ (k : Key).
          current_user hash_token (without k) (some raw) later ≡ http 401 "session expired")
        own (without-refused raw later s given found)

  target_id :
      (session_id user_id : Key) (target : BrowserSession)
      → find (own_session session_id user_id) db.sessions ≡ some target
      → target.id ≡ session_id
  target_id session_id user_id target found =
      let own = find-holds (own_session session_id user_id) db.sessions {a = target} found in
      (==_iff target.id session_id).0 (ground arith)

  -- Once a user has revoked a session, its token is refused at any time.
  pub revoke_session_effect :
      (auth : AuthenticatedUser) (raw : String) (later : Instant) (s : BrowserSession) (db' : Db)
      → str_eq raw "" ≡ false
      → find_session db.sessions (hash_token raw) ≡ some s
      → revoke_session s.id db auth now ≡ ok db'
      → current_user hash_token db' (some raw) later ≡ http 401 "session expired"
  unfolding revoke_session
  revoke_session_effect auth raw later s db' given found h =
      elim (Option-cases (find (own_session s.id auth.user.id) db.sessions)) [
        | inl missing ↦ absurd (ground arith)
        | inr (target, own) ↦
            let same : without target.id ≡ db' = ground arith in
            subst
              (λ (d : Db). current_user hash_token d (some raw) later ≡ http 401 "session expired")
              same
              (subst
                (λ (k : Key).
                  current_user hash_token (without k) (some raw) later ≡ http 401 "session expired")
                (sym (target_id s.id auth.user.id target own))
                (without-refused raw later s given found))
      ]

  find-unchanged :
      (raw : String) (xs : List BrowserSession) {s : BrowserSession}
      → xs ≡ db.sessions
      → find_session db.sessions (hash_token raw) ≡ some s
      → find_session xs (hash_token raw) ≡ some s
  find-unchanged raw xs {s} unchanged =
      subst (λ (ys : List BrowserSession). find_session ys (hash_token raw) ≡ some s)
        (sym unchanged)

  module _ (verify_password : String → String → Bool) (hash_password : String → String) where
    change_password-sessions :
        (user_id : Key) (current new : String) (db' : Db)
        → change_password verify_password hash_password db user_id current new ≡ ok db'
        → db'.sessions ≡ db.sessions
    unfolding change_password
    change_password-sessions user_id current new db' h =
        ground (arith, Option-cases (find (local_identity user_id) db.identities))

    update_password-inverse :
        (auth : AuthenticatedUser) (current new : String) (db' : Db)
        → update_password verify_password hash_password db auth current new now ≡ ok db'
        → (d : Db) × (d.sessions ≡ db.sessions)
          × (revoke_other_sessions d auth.user.id auth.session.id now ≡ db')
    unfolding update_password
    update_password-inverse auth current new db' h =
        go (change_password verify_password hash_password db auth.user.id current new) refl h
      where
        go :
            (r : Result String Db)
            → change_password verify_password hash_password db auth.user.id current new ≡ r
            → elim r [
              | err message ↦ http 400 message
              | ok d ↦ ok (revoke_other_sessions d auth.user.id auth.session.id now)
            ]
              ≡ ok db'
            → (d : Db) × (d.sessions ≡ db.sessions)
              × (revoke_other_sessions d auth.user.id auth.session.id now ≡ db')
        go (err message) e k = absurd (ground arith)
        go (ok d) e k = (d, change_password-sessions auth.user.id current new d e, ground arith)

    -- A change of password ends every other session of the user: its token is refused at any time. The
    -- session of the request and those of other users stay as they were.
    pub update_password_effect :
        (auth : AuthenticatedUser) (current new : String) (db' : Db)
        → update_password verify_password hash_password db auth current new now ≡ ok db'
        → (raw kept : String) (later : Instant) (s t : BrowserSession)
        → find_session db.sessions (hash_token raw) ≡ some s
        → s.user_id ≡ auth.user.id
        → s.id ≢ auth.session.id
        → str_eq raw "" ≡ false
        → find_session db.sessions (hash_token kept) ≡ some t
        → (t.id ≡ auth.session.id) ⊎ (t.user_id ≢ auth.user.id)
        → (current_user hash_token db' (some raw) later ≡ http 401 "session expired")
          × (find_session db'.sessions (hash_token kept) ≡ some t)
    update_password_effect auth current new db' h raw kept later s t found same other given found'
          stays =
        let (d, unchanged, step) = update_password-inverse auth current new db' h in
        subst
          (λ (r : Db).
            (current_user hash_token r (some raw) later ≡ http 401 "session expired")
            × (find_session r.sessions (hash_token kept) ≡ some t))
          step
          (revoke_other_sessions_effect hash_token d auth.user.id auth.session.id now raw kept later
            s t (find-unchanged raw d.sessions unchanged found) same other given
            (find-unchanged kept d.sessions unchanged found') stays)
