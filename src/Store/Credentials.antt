-- ===== src/Store/Credentials.antt =====
-- The operations of internal/store/users.go that change a password or an e-mail address or delete an
-- account, and what they do to the sessions.
mod Tests
use classing_backend.Base.{
  ℕ, ◌<◌, ◌+◌, ◌≤◌, ◌≡◌, refl, ◌∙◌, ap, sym, ◌≢◌, String, Bool, true, false, not, ◌&&◌, ◌||◌,
  Option, none, some, List, arith, leb, ltb, if◌then◌else◌, ◌==◌, nat_eq, string_eq, inl, inr,
  Bool-cases, Option-cases,
}
use text.Mathlib.TextEquality.{eq_iff}
use classing_backend.Base.Table.{select_one, count_where, update_where, select_one_passes}
use classing_backend.Base.Text.{trim_space}
use classing_backend.Store.Core.{
  Error, Result, ok, err, Action, transaction, transaction-eq-ok, ◌>>=◌, >>=-eq-ok,
  normalize_db_error, no_rows, forbidden,
}
use classing_backend.Store.Rows.{User, AuditContext, ResetToken, EmailChange, Tables}
use classing_backend.Store.Sessions.SignedOut.{SignedOut, SignedOut-revoke_all, Revoked}
use classing_backend.Store.Accounts.{Dialect, update_password}
use classing_backend.Store.Accounts.Rights.{delete_account, admin_delete_user}
use classing_backend.Store.Accounts.Rights.Revocation.{
  update_password-Revoked, delete_account-Revoked, admin_delete_user-Revoked,
}
use classing_backend.Store.Challenges.{consume_email_change_request}
use classing_backend.Store.Challenges.Revocation.{consume_email_change_request-Revoked}
use classing_backend.Store.Resets.{consume_reset_token}
use classing_backend.Store.Resets.Revocation.{consume_reset_token-Revoked}

pub data CredentialChange : Type 0 where
  new_password : String → String → CredentialChange
  reset_password : String → String → CredentialChange
  new_email : String → String → CredentialChange
  leave : String → String → AuditContext → CredentialChange
  remove : String → String → String → AuditContext → CredentialChange

-- A result that names an account.
abbrev named : {A : Type 0} → (A → String) → Result A × Tables → Result String × Tables
named f (ok a, d) = (ok (f a), d)
named f (err e, d) = (err e, d)

-- The account that a change has changed.
abbrev pub change_credential : Dialect → ℕ → CredentialChange → Action Tables String
change_credential dialect now (new_password user hash) d =
    named (λ _. user) (update_password now user hash d)
change_credential dialect now (reset_password token hash) d = consume_reset_token now token hash d
change_credential dialect now (new_email request code) d =
    named (λ u. u.id) (consume_email_change_request now request code d)
change_credential dialect now (leave audit_id user audit) d =
    named (λ _. user) (delete_account dialect now audit_id user audit d)
change_credential dialect now (remove audit_id actor user audit) d =
    named (λ _. user) (admin_delete_user dialect now audit_id actor user audit d)

named-eq-ok :
    {A : Type 0} (f : A → String) (m : Result A × Tables) (user : String) (d' : Tables)
    → named f m ≡ (ok user, d')
    → (a : A) × (m ≡ (ok a, d')) × (f a ≡ user)
named-eq-ok f (ok a, d) user d' h = (a, ground arith, ground arith)
named-eq-ok f (err e, d) user d' h = absurd (ground arith)

-- The cases of a change that has succeeded.
change-Revoked :
    (dialect : Dialect) (now : ℕ) (change : CredentialChange) (d d' : Tables) (user : String)
    → change_credential dialect now change d ≡ (ok user, d')
    → Revoked now user d'
change-Revoked dialect now (new_password id hash) d d' user h =
    let r = named-eq-ok (λ _. id) (update_password now id hash d) user d' h in
    rw (← r.2) (update_password-Revoked now id hash d d' r.0 r.1)
change-Revoked dialect now (reset_password token hash) d d' user h =
    consume_reset_token-Revoked now token hash user d d' h
change-Revoked dialect now (new_email request code) d d' user h =
    let r = named-eq-ok (λ u. u.id) (consume_email_change_request now request code d) user d' h in
    rw (← r.2) (consume_email_change_request-Revoked now request code d d' r.0 r.1)
change-Revoked dialect now (leave audit_id id audit) d d' user h =
    let r = named-eq-ok (λ _. id) (delete_account dialect now audit_id id audit d) user d' h in
    rw (← r.2) (delete_account-Revoked dialect now audit_id id audit d d' r.0 r.1)
change-Revoked dialect now (remove audit_id actor id audit) d d' user h =
    let r =
      named-eq-ok (λ _. id) (admin_delete_user dialect now audit_id actor id audit d) user d' h in
    rw (← r.2) (admin_delete_user-Revoked dialect now audit_id actor id audit d d' r.0 r.1)

-- Whoever changes a password or an e-mail address, resets a password by mail, or deletes an account,
-- is signed out: after the change, at a time that is not 0, no session of the account is active and
-- none of its refresh tokens is left unrevoked.
pub change-SignedOut :
    (dialect : Dialect) (now later : ℕ) (change : CredentialChange) (d d' : Tables) (user : String)
    → 0 < now
    → change_credential dialect now change d ≡ (ok user, d')
    → SignedOut later user d'
change-SignedOut dialect now later change d d' user pos h =
    let r = change-Revoked dialect now change d d' user h in
    SignedOut-revoke_all now later user r.0 d' pos r.1 r.2
