-- ===== src/Store/Accounts/Tests.antt =====
-- Runs of the accounts of internal/store/users.go.
use classing_backend.Base.{◌≡◌, refl, false, string_eq}
use classing_backend.Store.Core.{ok, err, conflict, normalize_db_error}
use classing_backend.Store.Rows.{role_user, status_active}
use classing_backend.Store.Fixtures.{accounts}
use classing_backend.Base.Text.{trim_space, to_lower}
use classing_backend.Store.Accounts.{
  create_user, add_user, add_free_membership, new_user, create_or_refresh_pending_user,
  pending_round, user_by_identifier, bootstrap_admin, update_username,
}

signs_up :
    (create_user 5 "c" " carol " "Carol@Example.org" "h" role_user accounts).0
    ≡ ok (record {
      id = "c";
      username = "carol";
      email = "carol@example.org";
      password_hash = "h";
      role = role_user;
      status = status_active;
      email_verified = 0;
      auth_epoch = 0;
      created_at = 5;
      updated_at = 5;
    })
unfolding create_user add_user add_free_membership new_user trim_space to_lower
signs_up = refl

-- A registration for the address of an active account is refused.
registers_once :
    (create_or_refresh_pending_user 5 "c" "carol" "bob@example.org" "h" accounts).0 ≡ err conflict
unfolding create_or_refresh_pending_user pending_round user_by_identifier trim_space to_lower
registers_once = refl

renames : (update_username 5 "b" "alice" accounts).0 ≡ err conflict
unfolding update_username trim_space normalize_db_error
renames = refl

bootstraps_once :
    (bootstrap_admin 5 "c" "root" "alice@example.org" "p" (ok "h") accounts).0 ≡ ok false
unfolding bootstrap_admin user_by_identifier trim_space to_lower
bootstraps_once = refl
