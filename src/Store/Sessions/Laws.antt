-- ===== src/Store/Sessions/Laws.antt =====
-- What revoking does to the sessions and the tokens of internal/store/users.go.
use classing_backend.Base.{
  ℕ, ◌<◌, ◌≡◌, refl, ◌∙◌, ◌≢◌, String, Bool, true, false, ◌&&◌, arith, ◌==◌, nat_eq, string_eq,
  beq_of_ne, sym,
}
use text.Mathlib.TextEquality.{eq_iff}
use classing_backend.Base.Table.{count_where, count_where-update_none, count_where-update_same}
use classing_backend.Store.Rows.{Session, Tables}
use classing_backend.Store.Sessions.{
  revoke_tokens, revoke_sessions, revoke_all, is_active, session_active,
}

-- The tokens of a user that are not revoked.
abbrev pub live_tokens : String → Tables → ℕ
live_tokens user d = count_where (λ t. t.user_id == user && t.revoked_at == 0) d.refresh_tokens

-- After `revoke_sessions` at a time that is not 0, no session that the test picks is active.
pub session_active-revoke_sessions :
    (now later : ℕ) (p : Session → Bool) (user session : String) (d : Tables)
    → 0 < now
    → ((s : Session) → s.id ≡ session → s.user_id ≡ user → p s ≡ true)
    → session_active later user session (revoke_sessions now p d) ≡ false
unfolding session_active
session_active-revoke_sessions now later p user session d pos picks =
    rw
      (count_where-update_none (is_active later user session) (λ s. p s && s.revoked_at == 0)
        (λ s. record s { revoked_at = now }) d.sessions
        (λ s. ground (arith, picks s, eq_iff s.id session, eq_iff s.user_id user)))
      (ground arith)

-- It leaves alone what the test does not pick.
pub session_active-revoke_other :
    (now later : ℕ) (p : Session → Bool) (user session : String) (d : Tables)
    → ((s : Session) → s.id ≡ session → s.user_id ≡ user → p s ≡ false)
    → session_active later user session (revoke_sessions now p d)
      ≡ session_active later user session d
unfolding session_active
session_active-revoke_other now later p user session d spares = rw (
    count_where-update_same (is_active later user session) (λ s. p s && s.revoked_at == 0)
      (λ s. record s { revoked_at = now }) d.sessions
      (λ s. ground (arith, spares s, eq_iff s.id session, eq_iff s.user_id user)))

live_tokens-revoke_self :
    (now : ℕ) (user : String) (d : Tables)
    → 0 < now
    → live_tokens user (revoke_tokens now (λ t. t.user_id == user) d) ≡ 0
live_tokens-revoke_self now user d pos =
    count_where-update_none (λ t. t.user_id == user && t.revoked_at == 0)
      (λ t. t.user_id == user && t.revoked_at == 0) (λ t. record t { revoked_at = now })
      d.refresh_tokens (λ t. ground arith)

live_tokens-revoke_other :
    (now : ℕ) (user other : String) (d : Tables)
    → other ≢ user
    → live_tokens other (revoke_tokens now (λ t. t.user_id == user) d) ≡ live_tokens other d
live_tokens-revoke_other now user other d ne =
    count_where-update_same (λ t. t.user_id == other && t.revoked_at == 0)
      (λ t. t.user_id == user && t.revoked_at == 0) (λ t. record t { revoked_at = now })
      d.refresh_tokens (λ t. ground (arith, ne, eq_iff t.user_id user, eq_iff t.user_id other))

-- Ending every session of a user, at a time that is not 0: none of the user's sessions is active, and
-- none of the user's refresh tokens is left unrevoked; another user's sessions and tokens are as they
-- were.
pub revoke_all_lem :
    (now later : ℕ) (user : String) (d : Tables)
    → 0 < now
    → ((session : String) → session_active later user session (revoke_all now user d) ≡ false)
      × (live_tokens user (revoke_all now user d) ≡ 0)
      × ((other session : String)
          → other ≢ user
          → (session_active later other session (revoke_all now user d)
              ≡ session_active later other session d)
            × (live_tokens other (revoke_all now user d) ≡ live_tokens other d))
unfolding revoke_all session_active
revoke_all_lem now later user d pos =
    let revoked = revoke_tokens now (λ t. t.user_id == user) d in
    (
      λ session.
          session_active-revoke_sessions now later (λ s. s.user_id == user) user session revoked pos
            (λ s _ h. (eq_iff s.user_id user).1 h),
      live_tokens-revoke_self now user d pos,
      λ other session ne. (
        session_active-revoke_other now later (λ s. s.user_id == user) other session revoked
            (λ s _ h. beq_of_ne s.user_id user (λ e. ne (sym h ∙ e))),
        live_tokens-revoke_other now user other d ne,
      ),
    )

-- It leaves the accounts alone.
pub revoke_all-users :
    (now : ℕ) (user : String) (d : Tables) → (revoke_all now user d).users ≡ d.users
unfolding revoke_all
revoke_all-users now user d = refl
