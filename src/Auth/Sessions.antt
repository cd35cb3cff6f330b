-- ===== src/Auth/Sessions.antt =====
-- Which requests are a user's.
use vehinode.Prelude.{
  ◌≡◌, ◌≢◌, ◌↔◌, refl, sym, ap, ◌∙◌, arith, String, true, false, Option, some, none, Option-cases,
  eq_refl, ◌⊎◌, inl, inr, ◌==◌, str_eq, eq_iff, ltb, if◌then◌else◌, ok, http, bind_inverse,
}
use vehinode.Prelude.Table.{update_where, find-update_where-some}
use vehinode.Models.{Key, Instant, User, BrowserSession, Db}
use vehinode.Access.{get_user}
use vehinode.Auth.{
  AuthenticatedUser, current_user, current_user_write, non_empty, required_token, find_session,
  live_session, active_user, see, revoke_other_sessions, is_other_session,
}

module _ (hash_token : String → String) where
  -- A cookie passes exactly when the session of its hash is stored, neither revoked nor expired, and
  -- the user of that session is active.
  pub current_user_lem :
      (db : Db) (raw : String) (now : Instant)
      → str_eq raw "" ≡ false
      → ((a : AuthenticatedUser) × (db' : Db) × (current_user hash_token db (some raw) now
            ≡ ok (a, db')))
        ↔ ((s : BrowserSession) × (u : User) × (find_session db.sessions (hash_token raw) ≡ some s)
            × (s.revoked_at ≡ none)
            × (ltb s.expires_at now ≡ false)
            × (get_user db s.user_id ≡ some u)
            × (u.is_active ≡ true))
  unfolding current_user live_session active_user
  current_user_lem db raw now given = (
    λ (a, db', h).
        let (token, e₁, h₁) = bind_inverse (required_token (non_empty (some raw))) _ h in
        let (s, e₂, h₂) =
          bind_inverse (live_session now (find_session db.sessions (hash_token token))) _ h₁ in
        let (u, e₃, h₃) = bind_inverse (active_user (get_user db s.user_id)) _ h₂ in
        (s, u, ground arith, ground arith, ground arith, ground arith, ground arith),
    λ (s, u, found, unrevoked, unexpired, there, active). (
      record { user = u; session = see now s },
      record db {
        sessions = update_where (λ (x : BrowserSession). x.id == s.id) (see now) db.sessions;
      },
      ground arith,
    ),
  )

  -- A request that writes passes exactly when its header and its cookie hold the same CSRF token and
  -- the session was opened with it.
  current_user_write_lem :
      (a : AuthenticatedUser) (header cookie : Option String)
      → (current_user_write hash_token a header cookie ≡ ok a) ↔ (
          (token : String) × (non_empty header ≡ some token)
          × (non_empty cookie ≡ some token)
          × (a.session.csrf_hash ≡ hash_token token))
  unfolding current_user_write
  current_user_write_lem a header cookie = (
    λ h. elim (Option-cases (non_empty header)) [
      | inl missing ↦ absurd (ground arith)
      | inr (token, given) ↦ elim (Option-cases (non_empty cookie)) [
        | inl missing ↦ absurd (ground arith)
        | inr (other, given') ↦ (
          token,
          given,
          given' ∙ ap some (sym ((eq_iff token other).0 (ground arith))),
          (eq_iff a.session.csrf_hash (hash_token token)).0 (ground arith),
        )
      ]
    ],
    λ (token, given, given', same).
        ground (arith, eq_refl token, (eq_iff a.session.csrf_hash (hash_token token)).1 same),
  )

  module _ (db : Db) (user_id current_id : Key) (now : Instant) where
    abbrev revoked : Db
    revoked = revoke_other_sessions db user_id current_id now

    find-revoked :
        (token_hash : String) {s : BrowserSession}
        → find_session db.sessions token_hash ≡ some s
        → find_session revoked.sessions token_hash
          ≡ some (
              if is_other_session user_id current_id s
              then record s { revoked_at = some now }
              else s)
    unfolding revoke_other_sessions
    find-revoked token_hash {s} found =
        find-update_where-some (λ (x : BrowserSession). str_eq x.token_hash token_hash)
          (is_other_session user_id current_id) (λ x. record x { revoked_at = some now })
          db.sessions {a = s} (λ x. refl) found

    ended :
        (later : Instant) (s : BrowserSession)
        → s.user_id ≡ user_id
        → s.id ≢ current_id
        → live_session later (
            some (
              if is_other_session user_id current_id s
              then record s { revoked_at = some now }
              else s))
          ≡ http 401 "session expired"
    unfolding live_session
    ended later s same other = ground arith

    -- After a user's other sessions are revoked, the token of each of them is refused at any time,
    -- while the current session and those of other users stay as they were.
    pub revoke_other_sessions_effect :
        (raw kept : String) (later : Instant) (s t : BrowserSession)
        → find_session db.sessions (hash_token raw) ≡ some s
        → s.user_id ≡ user_id
        → s.id ≢ current_id
        → str_eq raw "" ≡ false
        → find_session db.sessions (hash_token kept) ≡ some t
        → (t.id ≡ current_id) ⊎ (t.user_id ≢ user_id)
        → (current_user hash_token
              (revoke_other_sessions db user_id current_id now)
              (some raw)
              later
            ≡ http 401 "session expired")
          × (find_session
                (revoke_other_sessions db user_id current_id now).sessions
                (hash_token kept)
              ≡ some t)
    unfolding current_user
    revoke_other_sessions_effect raw kept later s t found same other given found' stays = (
      ground (arith, find-revoked (hash_token raw) found, ended later s same other),
      ground (arith, find-revoked (hash_token kept) found'),
    )
