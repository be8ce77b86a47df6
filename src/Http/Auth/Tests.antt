-- ===== src/Http/Auth/Tests.antt =====
-- Runs of requireAuth and requireAdmin of internal/httpapi/middleware.go.
use Prim.Native.String.{slice}
use classing_backend.Base.{
  ◌≡◌, ◌≢◌, refl, String, Option, none, some, if◌then◌else◌, ◌==◌, string_eq, arith,
}
use classing_backend.Base.Int.{pos}
use classing_backend.Base.Text.{trim_space, to_lower, split_on}
use classing_backend.Store.Core.{ok}
use classing_backend.Store.Rows.{Tables}
use classing_backend.Store.Fixtures.{bob, signed_in}
use classing_backend.Store.Accounts.{sqlite, update_password, user_by_id}
use classing_backend.Store.Sessions.{session_active}
use classing_backend.Store.Credentials.{change_credential, new_password}
use classing_backend.Http.Tokens.{Claims, Codec, token_parser, parse_token}
use classing_backend.Http.Tokens.Issued.{IsSigned}
use classing_backend.Http.Auth.{
  Principal, granted, auth_required, access_expired, admin_required, check_claims, require_auth,
  require_admin,
}
use classing_backend.Http.Auth.Granted.{token_of, IsOwner, require_auth-granted, change-ne-granted}

abbrev of_bob : Claims
of_bob = record {
  subject = "b";
  session = "s";
  role = "USER";
  issued = pos 0;
  expires = pos 900;
  id = "jti";
  epoch = pos 0;
}

-- A token service that knows one token.
abbrev parse_one : String → Option Claims
parse_one token = if token == "T" then some of_bob else none

-- An encoding that knows one payload.
abbrev small : Codec
small = record {
  sign = λ text. if text == "H.P" then "S" else "?";
  encode = λ text. text;
  decode = λ text. some text;
  marshal = λ claims. "P";
  unmarshal = λ text. if text == "P" then some of_bob else none;
}

abbrev as_bob : Principal
as_bob = record { user = bob; session_id = "s" }

passes : require_auth parse_one 20 "Bearer T" signed_in ≡ granted as_bob
unfolding require_auth check_claims user_by_id session_active trim_space to_lower
passes = refl

shows_a_token : require_auth (token_parser small 500) 500 " bearer H.P.S" signed_in ≡ granted as_bob
unfolding require_auth check_claims user_by_id session_active trim_space to_lower parse_token
    split_on
shows_a_token = refl

forged : require_auth (token_parser small 500) 500 "Bearer H.P.T" signed_in ≡ access_expired
unfolding require_auth check_claims user_by_id session_active trim_space to_lower parse_token
    split_on
forged = refl

require_auth-granted_example :
    (slice (to_lower (trim_space " bearer H.P.S")) 0 7 ≡ "bearer ")
    × (claims : Claims) × IsSigned small 0 (token_of " bearer H.P.S") claims
    × IsOwner 500 claims signed_in as_bob
require_auth-granted_example =
    require_auth-granted small 500 " bearer H.P.S" signed_in as_bob shows_a_token

needs_a_token : require_auth parse_one 20 "Basic T" signed_in ≡ auth_required
unfolding require_auth trim_space to_lower
needs_a_token = refl

needs_an_admin : require_admin parse_one 20 "Bearer T" signed_in ≡ admin_required
unfolding require_admin require_auth check_claims user_by_id session_active trim_space to_lower
needs_an_admin = refl

abbrev changed : Tables
changed = (change_credential sqlite 20 (new_password "b" "h2") signed_in).1

changes_password : change_credential sqlite 20 (new_password "b" "h2") signed_in ≡ (ok "b", changed)
unfolding update_password
changes_password = refl

change-ne-granted_example : require_auth parse_one 30 "Bearer T" changed ≢ granted as_bob
change-ne-granted_example =
    change-ne-granted sqlite 20 (new_password "b" "h2") signed_in changed "b" parse_one 30
      "Bearer T" as_bob (omega arith) changes_password refl
