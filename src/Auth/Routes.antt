-- ===== src/Auth/Routes.antt =====
-- The routes of backend/app/auth/routes.py on passwords and sessions. Clearing the cookies of a response
-- is left out.
use vehinode.Prelude.{
  String, Bool, ◌&&◌, Option, some, none, List, map, reverse, ◌==◌, ltb, is_none, Result, ok, err,
  HttpError, http,
}
use vehinode.Prelude.Table.{find, select, order_by, update_where}
use vehinode.Models.{Key, Instant, BrowserSession, Db}
use vehinode.Auth.{AuthenticatedUser, change_password, revoke_other_sessions}

abbrev pub revoke_at : Instant → BrowserSession → BrowserSession
revoke_at now s = record s { revoked_at = some now }

-- The session of the request.
unfoldable pub logout : Db → AuthenticatedUser → Instant → Db
logout db auth now = record db {
  sessions =
      update_where (λ (s : BrowserSession). s.id == auth.session.id) (revoke_at now) db.sessions;
}

unfoldable pub update_password :
    (String → String → Bool)
    → (String → String)
    → Db
    → AuthenticatedUser
    → String
    → String
    → Instant
    → Result HttpError Db
update_password verify_password hash_password db auth current new now =
    elim (change_password verify_password hash_password db auth.user.id current new) [
      | err message ↦ http 400 message
      | ok db' ↦ ok (revoke_other_sessions db' auth.user.id auth.session.id now)
    ]

pub record SessionResponse : Type 0 where
  pub id : Key
  pub created_at : Instant
  pub last_seen_at : Instant
  pub expires_at : Instant
  pub current : Bool
  pub ip_address : Option String
  pub user_agent : Option String

abbrev pub is_listed : Key → Instant → BrowserSession → Bool
is_listed user_id now s = s.user_id == user_id && (is_none s.revoked_at && ltb now s.expires_at)

abbrev pub session_response : Key → BrowserSession → SessionResponse
session_response current_id s = record {
  id = s.id;
  created_at = s.created_at;
  last_seen_at = s.last_seen_at;
  expires_at = s.expires_at;
  current = s.id == current_id;
  ip_address = s.ip_address;
  user_agent = s.user_agent;
}

-- The newest first.
unfoldable pub sessions : Db → AuthenticatedUser → Instant → List SessionResponse
sessions db auth now = map (session_response auth.session.id) (
    reverse (
      order_by (λ (s : BrowserSession). s.created_at)
        (select (is_listed auth.user.id now) db.sessions)))

abbrev pub own_session : Key → Key → BrowserSession → Bool
own_session session_id user_id s = s.id == session_id && s.user_id == user_id

unfoldable pub revoke_session : Key → Db → AuthenticatedUser → Instant → Result HttpError Db
revoke_session session_id db auth now =
    elim (find (own_session session_id auth.user.id) db.sessions) [
      | none ↦ http 404 "session not found"
      | some target ↦ ok (record db {
        sessions =
            update_where (λ (s : BrowserSession). s.id == target.id) (revoke_at now) db.sessions;
      })
    ]
