-- ===== src/Store/Redeem/Tests.antt =====
-- Runs of the codes of internal/store/membership.go.
use classing_backend.Base.{◌≡◌, refl, none, some, [], ◌∷◌, arith, string_eq}
use classing_backend.Base.Text.{trim_space, to_upper}
use classing_backend.Store.Core.{ok, err, forbidden}
use classing_backend.Store.Rows.{Membership, Tables}
use classing_backend.Store.Fixtures.{accounts, campaign}
use classing_backend.Store.Memberships.{membership, add_event, audit_if}
use classing_backend.Store.Redeem.{
  redeem, redeem_checks, redeem_writes, add_redemption, create_redeem_codes, new_code,
  format_redeem_code, revoke_redeem_code,
}
use classing_backend.Store.Redeem.Budget.{Budgeted, redeem-Budgeted}
use classing_backend.Store.Redeem.Once.{redeemed_until, Refused, redeem_once}

abbrev offered : Tables
offered = record accounts { redeem_codes = campaign ∷ [] }

abbrev after : Tables
after = (redeem 10 11 "r" "e" "l" "b" "cls-aaaa-bbbb-cccc" none offered).1

abbrev gained : Membership
gained = redeemed_until 10 "b" 2592000010

redeems : redeem 10 11 "r" "e" "l" "b" "cls-aaaa-bbbb-cccc" none offered ≡ (ok gained, after)
unfolding redeem redeem_checks redeem_writes add_redemption add_event audit_if membership trim_space
    to_upper
redeems = refl

offered-Budgeted : Budgeted offered
offered-Budgeted code item e = ground arith

redeem-Budgeted_example : Budgeted after
redeem-Budgeted_example =
    redeem-Budgeted 10 11 "r" "e" "l" "b" "cls-aaaa-bbbb-cccc" none offered offered-Budgeted

redeem_once_example :
    Refused (redeem 20 21 "r2" "e2" "l2" "b" "CLS-AAAA-BBBB-CCCC" none after) after
redeem_once_example =
    redeem_once 10 11 "r" "e" "l" "b" "cls-aaaa-bbbb-cccc" none offered after gained 20 21 "r2" "e2"
      "l2" "CLS-AAAA-BBBB-CCCC" none redeems (unfold trim_space to_upper in refl)

formats : format_redeem_code "ab-defghijkl" ≡ "CLS-ABXD-EFGH-IJKL"
unfolding format_redeem_code to_upper
formats = refl

creates :
    create_redeem_codes 1
      ("aaaabbbbcccc" ∷ "aaaabbbbcccc" ∷ "aaaabbbbdddd" ∷ [])
      "a"
      "campaign"
      1
      30
      2
      0
      offered
    ≡ some (
      ok (record campaign { code = "CLS-AAAA-BBBB-DDDD" } ∷ []),
      record offered {
        redeem_codes = campaign ∷ record campaign { code = "CLS-AAAA-BBBB-DDDD" } ∷ [];
      },
    )
unfolding create_redeem_codes new_code format_redeem_code trim_space to_upper
creates = refl

revoked :
    (redeem 30 31 "r" "e" "l" "b" "cls-aaaa-bbbb-cccc" none
      (revoke_redeem_code 20 "cls-aaaa-bbbb-cccc" offered).1).0
    ≡ err forbidden
unfolding redeem redeem_checks revoke_redeem_code trim_space to_upper
revoked = refl
