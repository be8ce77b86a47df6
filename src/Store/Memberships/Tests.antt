-- ===== src/Store/Memberships/Tests.antt =====
-- Runs of the memberships of internal/store/membership.go.
use classing_backend.Base.{◌≡◌, refl, none}
use classing_backend.Base.Text.{trim_space, to_upper}
use classing_backend.Store.Core.{ok, err, invalid}
use classing_backend.Store.Fixtures.{accounts}
use classing_backend.Store.Memberships.{membership, set_membership, add_event, audit_if}

sets :
    (set_membership 10 11 "e" "l" "a" "b" "annual" 5000 "grant" none accounts).0
    ≡ ok (record {
      user_id = "b";
      tier = "ANNUAL";
      expires_at = 5000;
      updated_at = 10;
      source = "ADMIN";
    })
unfolding set_membership membership add_event audit_if trim_space to_upper
sets = refl

refuses : (set_membership 10 11 "e" "l" "a" "b" "GOLD" 5000 "grant" none accounts).0 ≡ err invalid
unfolding set_membership trim_space to_upper
refuses = refl
