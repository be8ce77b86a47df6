-- ===== src/Store/Accounts/Rights.antt =====
-- internal/store/users.go: the deletion of an account, and the change of its role and status.
pub mod Counting
pub mod Admins
pub mod Revocation
mod Tests
use Prim.Native.String.{len, slice}
use Prim.Native.String.{◌++◌ as concat}
use classing_backend.Base.{
  ℕ, ◌-◌, ◌+◌, String, Bool, true, false, not, ◌&&◌, ◌||◌, Option, none, some, List, [], ◌∷◌, ◌++◌,
  map, leb, ltb, if◌then◌else◌, ◌==◌, nat_eq, string_eq,
}
use classing_backend.Base.Table.{select_one, select_where, count_where, update_where}
use classing_backend.Base.Text.{trim_space, to_lower, equal_fold}
use classing_backend.Store.Core.{
  Error, not_found, conflict, forbidden, invalid, database, duplicate_key, no_rows,
  normalize_db_error, Result, ok, err, Action, pure, fail, gets, or_fail, ◌>>=◌, ◌>>◌, fail_if,
  modify, transaction, commit, insert_row,
}
use classing_backend.Store.Rows.{
  User, Membership, AuditContext, AuditLog, Metadata, deleted_at, Tables, role_admin, role_user,
  status_active, status_disabled, status_pending, status_deleted,
}
use classing_backend.Store.Sessions.{revoke_all}
use classing_backend.Store.Accounts.{Dialect, sqlite, pgx, audit_in_tx}

abbrev pub is_active_admin : User → Bool
is_active_admin u = u.role == role_admin && u.status == status_active

-- The loop over the rows that PostgreSQL has locked.
abbrev count_others : String → List String → ℕ
count_others user [] = 0
count_others user (id ∷ ids) = (if id == user then 0 else 1) + count_others user ids

-- The active administrators but for one account.
pub remaining_admins : Dialect → String → List User → ℕ
remaining_admins pgx user users =
    count_others user (map (λ u. u.id) (select_where is_active_admin users))
remaining_admins sqlite user users =
    count_where (λ u. is_active_admin u && not (u.id == user)) users

abbrev deleted_suffix : String → String
deleted_suffix id = if ltb 32 (len id) then slice id (len id - 32) (len id) else id

abbrev deleted_username : String → String
deleted_username id = concat "deleted_" (deleted_suffix id)

abbrev deleted_email : String → String
deleted_email id = concat "deleted+" (concat id "@deleted.classing.local")

-- UPDATE users, UPDATE memberships: what is left of a deleted account.
abbrev pub mark_deleted : ℕ → String → User → Tables → Tables
mark_deleted now user current d = record d {
  users =
      update_where (λ u. u.id == user && u.status == current.status)
        (λ u. record u {
          username = deleted_username current.id;
          email = deleted_email current.id;
          password_hash = "";
          status = status_deleted;
          email_verified = 0;
          auth_epoch = now;
          updated_at = now;
        })
        d.users;
}

abbrev pub end_membership : ℕ → String → Tables → Tables
end_membership now user d = record d {
  memberships =
      update_where (λ m. m.user_id == user)
        (λ m. record m {
          tier = "FREE";
          expires_at = 0;
          updated_at = now;
          source = "ACCOUNT_DELETE";
        })
        d.memberships;
}

-- Another account has one of the names that a deleted account takes.
abbrev deleted_name_taken : String → User → List User → Bool
deleted_name_taken user current users = ltb 0 (
    count_where
      (λ u.
        not (u.id == user)
        && (u.username == deleted_username current.id || u.email == deleted_email current.id))
      users)

abbrev may_delete : Bool → User → Bool
may_delete allow_managed current =
    current.status == status_active
    || allow_managed && (current.status == status_disabled || current.status == status_pending)

-- The account to delete, if it may be deleted.
delete_checks : Dialect → String → String → Bool → Action Tables User
delete_checks dialect user actor allow_managed = do
  found ← gets (λ d. select_one (λ u. u.id == user) d.users)
  current ← or_fail found (normalize_db_error no_rows)
  fail_if (not (may_delete allow_managed current)) forbidden
  fail_if (not (actor == "") && current.id == actor) forbidden
  remaining ← gets (λ d. remaining_admins dialect user d.users)
  fail_if (current.role == role_admin && remaining == 0) conflict
  pure current

delete_writes : ℕ → String → String → AuditContext → User → Action Tables (Result (Unit {0}))
unfolding audit_in_tx
delete_writes now audit_id user audit current = do
  affected ← gets (λ d. count_where (λ u. u.id == user && u.status == current.status) d.users)
  taken ← gets (λ d. deleted_name_taken user current d.users)
  fail_if taken (normalize_db_error duplicate_key)
  modify (mark_deleted now user current)
  fail_if (not (affected == 1)) forbidden
  modify (revoke_all now user)
  modify (end_membership now user)
  audit_in_tx now audit_id (record audit { target_id = user; metadata = deleted_at now })
  commit tt

pub delete_account_by :
    Dialect → ℕ → String → String → String → Bool → AuditContext → Action Tables (Unit {0})
unfolding delete_checks delete_writes
delete_account_by dialect now audit_id user actor allow_managed audit =
    if trim_space user == ""
    then fail invalid
    else transaction do
      current ← delete_checks dialect user actor allow_managed
      delete_writes now audit_id user audit current

pub delete_account : Dialect → ℕ → String → String → AuditContext → Action Tables (Unit {0})
unfolding delete_account_by
delete_account dialect now audit_id user audit =
    delete_account_by dialect now audit_id user "" false audit

pub admin_delete_user :
    Dialect → ℕ → String → String → String → AuditContext → Action Tables (Unit {0})
unfolding delete_account_by
admin_delete_user dialect now audit_id actor user audit =
    if trim_space actor == "" || actor == user
    then fail forbidden
    else delete_account_by dialect now audit_id user actor true audit

abbrev removes_admin : String → String → User → Bool
removes_admin role status current =
    is_active_admin current && (not (role == role_admin) || not (status == status_active))

abbrev pub set_role : ℕ → String → String → String → Tables → Tables
set_role now id role status d = record d {
  users =
      update_where (λ u. u.id == id)
        (λ u. record u { role = role; status = status; auth_epoch = now; updated_at = now })
        d.users;
}

-- The account to change, if it may be changed so.
update_checks : Dialect → String → String → String → String → Action Tables User
update_checks dialect actor id role status = do
  found ← gets (λ d. select_one (λ u. u.id == id) d.users)
  current ← or_fail found (normalize_db_error no_rows)
  fail_if (id == actor && removes_admin role status current) forbidden
  remaining ← gets (λ d. remaining_admins dialect id d.users)
  fail_if (removes_admin role status current && remaining == 0) conflict
  pure current

update_writes :
    ℕ → String → String → String → String → AuditContext → User → Action Tables (Result User)
unfolding audit_in_tx
update_writes now audit_id id role status audit current = do
  affected ← gets (λ d. count_where (λ u. u.id == id) d.users)
  modify (set_role now id role status)
  fail_if (affected == 0) not_found
  modify λ d.
      if not (role == current.role) || not (status == current.status)
      then revoke_all now id d
      else d
  audit_in_tx now audit_id (record audit { target_id = id })
  found ← gets (λ d. select_one (λ u. u.id == id) d.users)
  changed ← or_fail found (normalize_db_error no_rows)
  commit changed

pub admin_update_user :
    Dialect → ℕ → String → String → String → String → String → AuditContext → Action Tables User
unfolding update_checks update_writes
admin_update_user dialect now audit_id actor id role status audit =
    if not (role == role_admin) && not (role == role_user)
      || not (status == status_active) && not (status == status_disabled)
    then fail invalid
    else transaction do
      current ← update_checks dialect actor id role status
      update_writes now audit_id id role status audit current
