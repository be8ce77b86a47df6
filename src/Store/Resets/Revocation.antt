-- ===== src/Store/Resets/Revocation.antt =====
-- What a reset of a password, internal/store/users.go, does to the sessions.
use classing_backend.Base.{ℕ, ◌≡◌, String, arith, nat_eq, string_eq, inl, inr, Option-cases}
use classing_backend.Store.Core.{ok}
use classing_backend.Store.Rows.{Tables}
use classing_backend.Store.Sessions.SignedOut.{Revoked}
use classing_backend.Store.Accounts.{set_password}
use classing_backend.Store.Resets.{consume_reset_token, find_reset, use_reset}

pub consume_reset_token-Revoked :
    (now : ℕ) (token hash user : String) (d d' : Tables)
    → consume_reset_token now token hash d ≡ (ok user, d')
    → Revoked now user d'
unfolding consume_reset_token
consume_reset_token-Revoked now token hash user d d' h = elim (Option-cases (find_reset token d)) [
  | inl e ↦ absurd (ground arith)
  | inr (row, e) ↦ (set_password now user hash (use_reset now row.id d), ground arith, ground arith)
]
