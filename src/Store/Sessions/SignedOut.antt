-- ===== src/Store/Sessions/SignedOut.antt =====
-- An account whose sessions and tokens internal/store/users.go has ended.
use classing_backend.Base.{ℕ, ◌<◌, ◌≡◌, String, false, arith, nat_eq, string_eq}
use classing_backend.Store.Rows.{Tables}
use classing_backend.Store.Sessions.{revoke_all, session_active}
use classing_backend.Store.Sessions.Laws.{live_tokens, revoke_all_lem}

-- Nobody can act for the user with what was handed out before.
abbrev pub SignedOut : ℕ → String → Tables → Type 0
SignedOut later user d =
    ((session : String) → session_active later user session d ≡ false) × (live_tokens user d ≡ 0)

-- Only the tables of the sessions and of the tokens count.
pub SignedOut-revoke_all :
    (now later : ℕ) (user : String) (d d' : Tables)
    → 0 < now
    → d'.sessions ≡ (revoke_all now user d).sessions
    → d'.refresh_tokens ≡ (revoke_all now user d).refresh_tokens
    → SignedOut later user d'
unfolding session_active
SignedOut-revoke_all now later user d d' pos s t =
    let r = revoke_all_lem now later user d pos in
    (λ session. ground (arith, r.0 session), ground (arith, r.1))

-- The tables of the sessions and the tokens as revoking leaves them, from some tables on.
abbrev pub Revoked : ℕ → String → Tables → Type 0
Revoked now user d' =
    (d : Tables) × (d'.sessions ≡ (revoke_all now user d).sessions)
    × (d'.refresh_tokens ≡ (revoke_all now user d).refresh_tokens)
