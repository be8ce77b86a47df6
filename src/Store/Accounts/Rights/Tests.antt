-- ===== src/Store/Accounts/Rights/Tests.antt =====
-- Runs of the deletions and the changes of roles of internal/store/users.go.
use classing_backend.Base.{◌≤◌, ◌≡◌, refl, Bool-cases, inl, inr, ◌==◌, string_eq, arith}
use text.Mathlib.TextEquality.{eq_iff}
use classing_backend.Store.Core.{ok, err, conflict}
use classing_backend.Store.Sessions.{revoke_all}
use classing_backend.Store.Fixtures.{audit, accounts}
use classing_backend.Base.Text.{trim_space}
use classing_backend.Store.Accounts.{sqlite, pgx}
use classing_backend.Store.Accounts.Rights.{
  delete_account, delete_account_by, delete_checks, delete_writes, remaining_admins,
  admin_update_user, update_checks,
}
use classing_backend.Store.Accounts.Rights.Counting.{
  active_admins, UniqueIds, remaining_admins-dialect,
}
use classing_backend.Store.Accounts.Rights.Admins.{change, account_step, account_step-active_admins}

accounts-UniqueIds : UniqueIds accounts
accounts-UniqueIds id = elim (Bool-cases ("a" == id)) [
  | inl same ↦ let e : "a" ≡ id = (eq_iff "a" id).0 same in rw (← e) (omega arith)
  | inr other ↦ rw other (ground arith)
]

account_step-active_admins_example :
    1 ≤ active_admins (account_step pgx (change 20 "l" "b" "b" "ADMIN" "ACTIVE" audit) accounts)
account_step-active_admins_example =
    account_step-active_admins pgx (change 20 "l" "b" "b" "ADMIN" "ACTIVE" audit) accounts
      accounts-UniqueIds (omega arith)

remaining_admins-dialect_example :
    remaining_admins pgx "a" accounts.users ≡ remaining_admins sqlite "a" accounts.users
remaining_admins-dialect_example = remaining_admins-dialect "a" accounts.users

-- The last administrator can neither leave nor give up the role.
cannot_leave : delete_account sqlite 20 "l" "a" audit accounts ≡ (err conflict, accounts)
unfolding delete_account delete_account_by delete_checks remaining_admins trim_space
cannot_leave = refl

cannot_step_down :
    (admin_update_user sqlite 20 "l" "b" "a" "USER" "ACTIVE" audit accounts).0 ≡ err conflict
unfolding admin_update_user update_checks remaining_admins
cannot_step_down = refl

leaves : (delete_account sqlite 20 "l" "b" audit accounts).0 ≡ ok tt
unfolding delete_account delete_account_by delete_checks delete_writes remaining_admins trim_space
    revoke_all
leaves = refl
