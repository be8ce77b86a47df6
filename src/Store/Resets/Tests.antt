-- ===== src/Store/Resets/Tests.antt =====
-- Runs of the resets of a password, internal/store/users.go.
use classing_backend.Base.{◌≡◌, refl, []}
use classing_backend.Store.Core.{ok, err, forbidden, not_found, normalize_db_error}
use classing_backend.Store.Rows.{Tables}
use classing_backend.Store.Sessions.{revoke_all}
use classing_backend.Store.Fixtures.{accounts}
use classing_backend.Store.Resets.{
  create_reset_token, consume_reset_token, cancel_reset_token, cleanup_expired_security_data,
}

abbrev asked : Tables
asked = (create_reset_token 10 "r" "b" "token" 1000 "ip" "ua" accounts).1

abbrev reset : Tables
reset = (consume_reset_token 20 "token" "h2" asked).1

resets : (consume_reset_token 20 "token" "h2" asked).0 ≡ ok "b"
unfolding create_reset_token consume_reset_token
resets = refl

resets_once : (consume_reset_token 30 "token" "h3" reset).0 ≡ err forbidden
unfolding create_reset_token consume_reset_token revoke_all
resets_once = refl

cancels :
    (consume_reset_token 30 "token" "h3" (cancel_reset_token "b" "token" asked).1).0 ≡ err not_found
unfolding create_reset_token consume_reset_token cancel_reset_token normalize_db_error
cancels = refl

cleans_up : (cleanup_expired_security_data 1001 asked).reset_tokens ≡ []
unfolding create_reset_token cleanup_expired_security_data
cleans_up = refl
