-- ===== src/Store/Resets.antt =====
-- internal/store/users.go: the tokens that reset a password, and the clean-up of what has run out.
pub mod Revocation
mod Tests
use classing_backend.Base.{
  ℕ, ◌-◌, ◌+◌, ◌*◌, max, String, Bool, true, false, not, ◌&&◌, ◌||◌, Option, none, some, List, [],
  ◌∷◌, ◌++◌, leb, ltb, if◌then◌else◌, ◌==◌, nat_eq, string_eq,
}
use classing_backend.Base.Table.{select_one, select_where, count_where, update_where, delete_where}
use classing_backend.Base.Text.{trim_space, to_lower}
use classing_backend.Store.Core.{
  Error, not_found, conflict, forbidden, unavailable, duplicate_key, no_rows, normalize_db_error,
  Result, ok, err, Action, pure, fail, gets, or_fail, ◌>>=◌, ◌>>◌, fail_if, modify, transaction,
  commit, commit_and_fail, insert_row,
}
use classing_backend.Store.Rows.{
  User, EmailChallenge, EmailChange, ResetToken, Tables, status_active, status_pending,
}
use classing_backend.Store.Accounts.{set_password}
use classing_backend.Store.Sessions.{revoke_all}
use classing_backend.Store.Challenges.{is_closed}

-- INSERT INTO password_reset_tokens: `id` and `token_hash` are unique.
pub create_reset_token :
    ℕ → String → String → String → ℕ → String → String → Action Tables (Unit {0})
create_reset_token now id user hash expires_at ip ua d =
    let row : ResetToken = record {
      id = id;
      user_id = user;
      token_hash = hash;
      expires_at = expires_at;
      used_at = 0;
      request_ip = ip;
      request_ua = ua;
      created_at = now;
      failed_attempts = 0;
    } in
    elim (insert_row (λ t. t.id == id || t.token_hash == hash) row d.reset_tokens) [
      | none ↦ fail (normalize_db_error duplicate_key) d
      | some rows ↦ (ok tt, record d { reset_tokens = rows })
    ]

pub cancel_reset_token : String → String → Action Tables (Unit {0})
cancel_reset_token user hash = modify λ d. record d {
  reset_tokens =
      delete_where (λ t. t.user_id == user && t.token_hash == hash && t.used_at == 0)
        d.reset_tokens;
}

abbrev pub find_reset : String → Tables → Option ResetToken
find_reset hash d = select_one (λ t. t.token_hash == hash) d.reset_tokens

-- UPDATE password_reset_tokens SET used_at WHERE id AND used_at = 0
abbrev pub use_reset : ℕ → String → Tables → Tables
use_reset now id d = record d {
  reset_tokens =
      update_where (λ t. t.id == id && t.used_at == 0) (λ t. record t { used_at = now })
        d.reset_tokens;
}

pub consume_reset_token : ℕ → String → String → Action Tables String
consume_reset_token now token_hash password_hash = transaction do
  found ← gets (find_reset token_hash)
  row ← or_fail found (normalize_db_error no_rows)
  fail_if (is_closed now row.used_at row.expires_at row.failed_attempts) forbidden
  affected ← gets (λ d. count_where (λ t. t.id == row.id && t.used_at == 0) d.reset_tokens)
  modify (use_reset now row.id)
  fail_if (not (affected == 1)) forbidden
  modify (set_password now row.user_id password_hash)
  modify (revoke_all now row.user_id)
  commit row.user_id

-- The deletions of the clean-up that concern these tables and the sessions.
abbrev is_stale : ℕ → ℕ → ℕ → Bool
is_stale now expires_at used_at =
    ltb expires_at now || ltb 0 used_at && ltb used_at (now - 24 * 3600000)

pub cleanup_expired_security_data : ℕ → Tables → Tables
cleanup_expired_security_data now d = record d {
  email_challenges = delete_where (λ c. is_stale now c.expires_at c.used_at) d.email_challenges;
  email_changes = delete_where (λ c. is_stale now c.expires_at c.used_at) d.email_changes;
  reset_tokens = delete_where (λ t. is_stale now t.expires_at t.used_at) d.reset_tokens;
  sessions =
      delete_where
        (λ s. (ltb s.expires_at now || ltb 0 s.revoked_at) && ltb s.created_at (now - 24 * 3600000))
        d.sessions;
}
