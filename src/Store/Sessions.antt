-- ===== src/Store/Sessions.antt =====
-- internal/store/users.go: sessions and their refresh tokens. The identifiers that `ids.New` draws are
-- arguments, and so is the time.
pub mod Laws
pub mod SignedOut
pub mod Reuse
mod Tests
use classing_backend.Base.{
  ℕ, String, Bool, true, false, not, ◌&&◌, ◌||◌, Option, none, some, List, leb, ltb, if◌then◌else◌,
  ◌==◌, nat_eq, string_eq,
}
use classing_backend.Base.Table.{select_one, count_where, update_where}
use classing_backend.Store.Core.{
  Error, not_found, forbidden, invalid, database, duplicate_key, normalize_db_error, no_rows,
  Result, ok, err, Action, pure, fail, gets, or_fail, ◌>>=◌, ◌>>◌, fail_if, modify, transaction,
  commit, commit_and_fail, insert_row,
}
use classing_backend.Store.Rows.{User, Session, RefreshToken, Tables, status_active}

-- INSERT INTO auth_sessions
pub add_session : Session → Action Tables (Unit {0})
add_session row d = elim (insert_row (λ s. s.id == row.id) row d.sessions) [
  | none ↦ fail (normalize_db_error duplicate_key) d
  | some rows ↦ (ok tt, record d { sessions = rows })
]

-- INSERT INTO refresh_tokens: `id` and `token_hash` are unique. The callers differ in the error.
pub add_refresh_token : Error → RefreshToken → Action Tables (Unit {0})
add_refresh_token on_duplicate row d =
    elim (insert_row (λ t. t.id == row.id || t.token_hash == row.token_hash) row d.refresh_tokens) [
      | none ↦ fail on_duplicate d
      | some rows ↦ (ok tt, record d { refresh_tokens = rows })
    ]

-- UPDATE refresh_tokens SET revoked_at = now WHERE p AND revoked_at = 0
abbrev pub revoke_tokens : ℕ → (RefreshToken → Bool) → Tables → Tables
revoke_tokens now p d = record d {
  refresh_tokens =
      update_where (λ t. p t && t.revoked_at == 0) (λ t. record t { revoked_at = now })
        d.refresh_tokens;
}

-- UPDATE auth_sessions SET revoked_at = now WHERE p AND revoked_at = 0
abbrev pub revoke_sessions : ℕ → (Session → Bool) → Tables → Tables
revoke_sessions now p d = record d {
  sessions =
      update_where (λ s. p s && s.revoked_at == 0) (λ s. record s { revoked_at = now }) d.sessions;
}

-- The two statements with which a change of credentials ends every session of a user.
unfoldable pub revoke_all : ℕ → String → Tables → Tables
revoke_all now user d =
    revoke_sessions now (λ s. s.user_id == user) (revoke_tokens now (λ t. t.user_id == user) d)

abbrev pub is_active : ℕ → String → String → Session → Bool
is_active now user session s =
    s.id == session && s.user_id == user && s.revoked_at == 0 && ltb now s.expires_at

unfoldable pub session_active : ℕ → String → String → Tables → Bool
session_active now user session d =
    if session == "" then false else count_where (is_active now user session) d.sessions == 1

-- INSERT of a session and of its refresh token; `create_refresh_token` and the login of a device.
unfoldable pub open_session :
    ℕ → String → String → String → String → ℕ → String → String → Action Tables (Unit {0})
unfolding add_session add_refresh_token
open_session now session_id refresh_id user token_hash expires_at ip ua = do
  add_session (record {
    id = session_id;
    user_id = user;
    revoked_at = 0;
    expires_at = expires_at;
    created_at = now;
    last_seen_at = now;
    ip_address = ip;
    user_agent = ua;
  })
  add_refresh_token (normalize_db_error duplicate_key) (record {
    id = refresh_id;
    user_id = user;
    token_hash = token_hash;
    expires_at = expires_at;
    revoked_at = 0;
    replaced_by = "";
    created_at = now;
    ip_address = ip;
    user_agent = ua;
    session_id = session_id;
  })

pub create_refresh_token :
    ℕ → String → String → String → String → ℕ → String → String → Action Tables String
unfolding open_session
create_refresh_token now session_id refresh_id user token_hash expires_at ip ua =
    transaction
      do open_session now session_id refresh_id user token_hash expires_at ip ua; commit session_id

-- UPDATE refresh_tokens SET revoked_at = now, replaced_by = new_id WHERE id = token.id AND revoked_at = 0
abbrev pub mark_rotated : ℕ → String → RefreshToken → List RefreshToken → List RefreshToken
mark_rotated now new_id token =
    update_where (λ t. t.id == token.id && t.revoked_at == 0)
      (λ t. record t { revoked_at = now; replaced_by = new_id })

-- The row that replaces a token.
abbrev pub next_token : ℕ → String → RefreshToken → String → ℕ → String → String → RefreshToken
next_token now new_id token new_hash new_expires_at ip ua = record {
  id = new_id;
  user_id = token.user_id;
  token_hash = new_hash;
  expires_at = new_expires_at;
  revoked_at = 0;
  replaced_by = "";
  created_at = now;
  ip_address = ip;
  user_agent = ua;
  session_id = token.session_id;
}

-- UPDATE auth_sessions SET expires_at, last_seen_at, ip_address, user_agent WHERE id = session
abbrev pub touch_session : ℕ → String → ℕ → String → String → List Session → List Session
touch_session now session new_expires_at ip ua =
    update_where (λ s. s.id == session)
      (λ s. record s {
        expires_at = new_expires_at;
        last_seen_at = now;
        ip_address = ip;
        user_agent = ua;
      })

-- The rotation of a token that was found, is not revoked and has not run out.
rotate_live :
    ℕ
    → String
    → RefreshToken
    → String
    → ℕ
    → String
    → String
    → Action Tables (Result (User × String))
unfolding add_refresh_token
rotate_live now new_id token new_hash new_expires_at ip ua = do
  fail_if (token.session_id == "") forbidden
  active ← gets λ d. count_where (is_active now token.user_id token.session_id) d.sessions
  fail_if (not (active == 1)) forbidden
  affected ← gets λ d. count_where (λ t. t.id == token.id && t.revoked_at == 0) d.refresh_tokens
  modify λ d. record d { refresh_tokens = mark_rotated now new_id token d.refresh_tokens }
  fail_if (not (affected == 1)) forbidden
  add_refresh_token (database duplicate_key)
      (next_token now new_id token new_hash new_expires_at ip ua)
  modify λ d. record d {
    sessions = touch_session now token.session_id new_expires_at ip ua d.sessions;
  }
  user ← gets (λ d. select_one (λ u. u.id == token.user_id) d.users)
  user ← or_fail user (normalize_db_error no_rows)
  fail_if (not (user.status == status_active)) forbidden
  commit (user, token.session_id)

-- A token that is revoked or has run out takes its session with it, and that is committed.
rotate_dead : ℕ → RefreshToken → Action Tables (Result (User × String))
rotate_dead now token = if token.session_id == "" then fail forbidden else (do
  modify (revoke_sessions now (λ s. s.id == token.session_id))
  commit_and_fail forbidden)

pub rotate_refresh_token_session :
    ℕ → String → String → String → ℕ → String → String → Action Tables (User × String)
unfolding rotate_live rotate_dead
rotate_refresh_token_session now new_id old_hash new_hash new_expires_at ip ua = transaction do
  found ← gets (λ d. select_one (λ t. t.token_hash == old_hash) d.refresh_tokens)
  token ← or_fail found (normalize_db_error no_rows)
  if not (token.revoked_at == 0) || leb token.expires_at now
      then rotate_dead now token
      else rotate_live now new_id token new_hash new_expires_at ip ua

pub rotate_refresh_token : ℕ → String → String → String → ℕ → String → String → Action Tables User
rotate_refresh_token now new_id old_hash new_hash new_expires_at ip ua = do
  (user, _) ← rotate_refresh_token_session now new_id old_hash new_hash new_expires_at ip ua
  pure user

pub revoke_refresh_token : ℕ → String → String → Action Tables (Unit {0})
revoke_refresh_token now user token_hash = transaction do
  found ←
      gets (λ d. select_one (λ t. t.user_id == user && t.token_hash == token_hash) d.refresh_tokens)
  token ← or_fail found (normalize_db_error no_rows)
  modify (revoke_tokens now (λ t. t.session_id == token.session_id))
  modify (revoke_sessions now (λ s. s.id == token.session_id))
  commit tt

pub revoke_session : ℕ → String → String → Action Tables (Unit {0})
revoke_session now user session =
    if user == "" || session == ""
    then fail invalid
    else transaction do
      affected ← gets (λ d.
          count_where (λ s. s.id == session && s.user_id == user && s.revoked_at == 0) d.sessions)
      modify (revoke_sessions now (λ s. s.id == session && s.user_id == user))
      fail_if (not (affected == 1)) not_found
      modify (revoke_tokens now (λ t. t.session_id == session && t.user_id == user))
      commit tt
