-- ===== src/Http/Auth.antt =====
-- internal/httpapi/middleware.go: who may pass requireAuth and requireAdmin. `parse` is the method Parse
-- of the token service; it is an argument, so that what holds for every service can be said, and the
-- service of internal/auth/tokens.go is `token_parser` of Http/Tokens.
pub mod Granted
mod Tests
use Prim.Native.String.{len, slice}
use classing_backend.Base.{
  ℕ, String, Bool, true, false, not, ◌||◌, Option, none, some, if◌then◌else◌, ◌==◌, nat_eq,
  string_eq,
}
use classing_backend.Base.Int.{is_nat}
use classing_backend.Base.Text.{trim_space, to_lower}
use classing_backend.Store.Core.{ok, err}
use classing_backend.Store.Rows.{User, Tables, status_active, role_admin}
use classing_backend.Store.Accounts.{user_by_id}
use classing_backend.Store.Sessions.{session_active}
use classing_backend.Http.Tokens.{Claims}

pub record Principal : Type 0 where
  pub user : User
  pub session_id : String

-- The codes of the refusals.
pub data Access : Type 0 where
  granted : Principal → Access
  auth_required access_expired account_disabled session_revoked admin_required : Access

abbrev pub has_prefix : String → String → Bool
has_prefix s prefix = slice s 0 (len prefix) == prefix

-- The checks of a token that was parsed.
pub check_claims : ℕ → Claims → Tables → Access
unfolding user_by_id
check_claims now claims d = elim (user_by_id claims.subject d).0 [
  | err _ ↦ account_disabled
  | ok user ↦
      if not (user.status == status_active)
      then account_disabled
      else if not (is_nat claims.epoch user.auth_epoch)
      then session_revoked
      else if session_active now user.id claims.session d
      then granted (record { user = user; session_id = claims.session })
      else session_revoked
]

pub require_auth : (String → Option Claims) → ℕ → String → Tables → Access
unfolding check_claims
require_auth parse now header d =
    let header = trim_space header in
    if not (has_prefix (to_lower header) "bearer ")
    then auth_required
    else (elim (parse (trim_space (slice header 7 (len header)))) [
      | none ↦ access_expired
      | some claims ↦ check_claims now claims d
    ])

pub require_admin : (String → Option Claims) → ℕ → String → Tables → Access
unfolding require_auth
require_admin parse now header d = elim (require_auth parse now header d) [
  | granted p ↦ if p.user.role == role_admin then granted p else admin_required
  | refused ↦ refused
]
