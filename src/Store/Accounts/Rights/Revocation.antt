-- ===== src/Store/Accounts/Rights/Revocation.antt =====
-- What the operations of internal/store/users.go on accounts do to the sessions.
use classing_backend.Base.{ℕ, ◌≡◌, String, Bool, true, false, arith, nat_eq, string_eq}
use classing_backend.Store.Core.{Result, ok, transaction, transaction-eq-ok, ◌>>=◌, >>=-eq-ok}
use classing_backend.Store.Rows.{User, AuditContext, Tables}
use classing_backend.Store.Sessions.SignedOut.{Revoked}
use classing_backend.Store.Accounts.{Dialect, update_password, set_password, audit_in_tx}
use classing_backend.Store.Accounts.Rights.{
  delete_checks, delete_writes, delete_account_by, delete_account, admin_delete_user, mark_deleted,
}

pub update_password-Revoked :
    (now : ℕ) (user hash : String) (d d' : Tables) (r : Unit {0})
    → update_password now user hash d ≡ (ok r, d')
    → Revoked now user d'
unfolding update_password
update_password-Revoked now user hash d d' r h =
    (set_password now user hash d, ground arith, ground arith)

delete_writes-Revoked :
    (now : ℕ) (audit_id user : String) (audit : AuditContext) (current : User) (d d' : Tables)
    (r : Result (Unit {0}))
    → delete_writes now audit_id user audit current d ≡ (ok r, d')
    → Revoked now user d'
unfolding delete_writes audit_in_tx
delete_writes-Revoked now audit_id user audit current d d' r h =
    (mark_deleted now user current d, ground arith, ground arith)

delete_account_by-Revoked :
    (dialect : Dialect) (now : ℕ) (audit_id user actor : String) (allow : Bool)
    (audit : AuditContext) (d d' : Tables) (r : Unit {0})
    → delete_account_by dialect now audit_id user actor allow audit d ≡ (ok r, d')
    → Revoked now user d'
unfolding delete_account_by
delete_account_by-Revoked dialect now audit_id user actor allow audit d d' r h =
    let body = delete_checks dialect user actor allow >>= delete_writes now audit_id user audit in
    let run : transaction body d ≡ (ok r, d') = ground arith in
    let step =
      >>=-eq-ok (delete_checks dialect user actor allow) (delete_writes now audit_id user audit) d
        d' (ok r) (transaction-eq-ok body d d' r run) in
    delete_writes-Revoked now audit_id user audit step.0 step.1 d' (ok r) step.3

pub admin_delete_user-Revoked :
    (dialect : Dialect) (now : ℕ) (audit_id actor user : String) (audit : AuditContext)
    (d d' : Tables) (r : Unit {0})
    → admin_delete_user dialect now audit_id actor user audit d ≡ (ok r, d')
    → Revoked now user d'
unfolding admin_delete_user
admin_delete_user-Revoked dialect now audit_id actor user audit d d' r h =
    delete_account_by-Revoked dialect now audit_id user actor true audit d d' r (ground arith)

pub delete_account-Revoked :
    (dialect : Dialect) (now : ℕ) (audit_id user : String) (audit : AuditContext) (d d' : Tables)
    (r : Unit {0})
    → delete_account dialect now audit_id user audit d ≡ (ok r, d')
    → Revoked now user d'
unfolding delete_account
delete_account-Revoked dialect now audit_id user audit d d' r h =
    delete_account_by-Revoked dialect now audit_id user "" false audit d d' r h
