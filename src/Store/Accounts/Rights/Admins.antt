-- ===== src/Store/Accounts/Rights/Admins.antt =====
-- The operations of internal/store/users.go that can take an administrator away.
use classing_backend.Base.{
  ℕ, ◌≤◌, ◌≡◌, refl, String, Bool, true, false, not, ◌&&◌, ◌||◌, some, List, arith, ◌==◌, nat_eq,
  string_eq, inl, inr, Bool-cases,
}
use text.Mathlib.TextEquality.{eq_iff}
use classing_backend.Base.Table.{
  select_one, count_where, update_where, updated, count_where-update_where, count_where_mono,
}
use classing_backend.Base.Text.{trim_space}
use classing_backend.Store.Core.{Result, ok, ◌>>=◌, >>=-eq-ok, transaction_keeps}
use classing_backend.Store.Rows.{
  User, Tables, AuditContext, role_admin, role_user, status_active, status_disabled, status_deleted,
}
use classing_backend.Store.Sessions.Laws.{revoke_all-users}
use classing_backend.Store.Accounts.Rights.Counting.{
  active_admins, UniqueIds, others, remaining_admins-eq, others-le-update, admins-le-others,
}
use classing_backend.Store.Accounts.{Dialect, audit_in_tx}
use classing_backend.Store.Accounts.Rights.{
  is_active_admin, delete_account_by, delete_account, admin_delete_user, admin_update_user,
  mark_deleted, set_role, deleted_username, deleted_email, delete_checks, delete_writes,
  update_checks, update_writes, may_delete, removes_admin,
}

delete_checks-eq-ok :
    (dialect : Dialect) (user actor : String) (allow : Bool) (d d' : Tables) (current : User)
    → delete_checks dialect user actor allow d ≡ (ok current, d')
    → (d' ≡ d)
      × (select_one (λ u. u.id == user) d.users ≡ some current)
      × (may_delete allow current ≡ true)
      × ((current.role ≡ role_admin) → 1 ≤ count_where (others user) d.users)
unfolding delete_checks
delete_checks-eq-ok dialect user actor allow d d' current h = (
  ground arith,
  ground arith,
  ground arith,
  λ e. ground (arith, eq_iff current.role role_admin, remaining_admins-eq dialect user d.users),
)

-- The row that is left of a deleted account.
abbrev deleted_row : ℕ → User → User → User
deleted_row now current u = record u {
  username = deleted_username current.id;
  email = deleted_email current.id;
  password_hash = "";
  status = status_deleted;
  email_verified = 0;
  auth_epoch = now;
  updated_at = now;
}

delete_writes-users :
    (now : ℕ) (audit_id user : String) (audit : AuditContext) (current : User) (d d' : Tables)
    (r : Result (Unit {0}))
    → delete_writes now audit_id user audit current d ≡ (ok r, d')
    → d'.users
      ≡ update_where
          (λ u. u.id == user && u.status == current.status)
          (deleted_row now current)
          d.users
unfolding delete_writes audit_in_tx
delete_writes-users now audit_id user audit current d d' r h =
    ground (arith, revoke_all-users now user (mark_deleted now user current d))

-- What the checks of a deletion have left to count.
delete-others :
    (dialect : Dialect) (user actor : String) (allow : Bool) (d d' : Tables) (current : User)
    → UniqueIds d
    → 1 ≤ active_admins d
    → delete_checks dialect user actor allow d ≡ (ok current, d')
    → 1 ≤ count_where (others user) d.users
delete-others dialect user actor allow d d' current unique admin h =
    let checked = delete_checks-eq-ok dialect user actor allow d d' current h in
    elim (Bool-cases (current.role == role_admin)) [
      | inl is ↦ checked.3 ((eq_iff current.role role_admin).0 is)
      | inr not_admin ↦
          ground (arith, unique user, admins-le-others user current d.users (unique user) checked.1)
    ]

delete_account_by-admins :
    (dialect : Dialect) (now : ℕ) (audit_id user actor : String) (allow : Bool)
    (audit : AuditContext) (d : Tables)
    → UniqueIds d
    → 1 ≤ active_admins d
    → 1 ≤ active_admins (delete_account_by dialect now audit_id user actor allow audit d).1
unfolding delete_account_by
delete_account_by-admins dialect now audit_id user actor allow audit d unique admin =
    elim (Bool-cases (trim_space user == "")) [
      | inl e ↦ rw e admin
      | inr e ↦ rw e (
          transaction_keeps (λ t. 1 ≤ active_admins t)
            (delete_checks dialect user actor allow >>= delete_writes now audit_id user audit) d
            admin
            (λ r d' run.
              let step =
                >>=-eq-ok (delete_checks dialect user actor allow)
                  (delete_writes now audit_id user audit) d d' r run in
              let checked = delete_checks-eq-ok dialect user actor allow d step.1 step.0 step.2 in
              let left =
                delete-others dialect user actor allow d step.1 step.0 unique admin step.2 in
              let kept =
                others-le-update user (λ u. u.id == user && u.status == step.0.status)
                  (deleted_row now step.0) d.users (λ u h. ground (arith, eq_iff u.id user))
                  (λ u. refl) in
              let users = delete_writes-users now audit_id user audit step.0 step.1 d' r step.3 in
              rw (users, checked.0) (ground arith)))
    ]

update_checks-eq-ok :
    (dialect : Dialect) (actor user role status : String) (d d' : Tables) (current : User)
    → update_checks dialect actor user role status d ≡ (ok current, d')
    → (d' ≡ d)
      × (select_one (λ u. u.id == user) d.users ≡ some current)
      × (removes_admin role status current ≡ true → 1 ≤ count_where (others user) d.users)
unfolding update_checks
update_checks-eq-ok dialect actor user role status d d' current h =
    (ground arith, ground arith, λ e. ground (arith, remaining_admins-eq dialect user d.users))

abbrev changed_row : ℕ → String → String → User → User
changed_row now role status u = record u {
  role = role;
  status = status;
  auth_epoch = now;
  updated_at = now;
}

update_writes-users :
    (now : ℕ) (audit_id user role status : String) (audit : AuditContext) (current : User)
    (d d' : Tables) (r : Result User)
    → update_writes now audit_id user role status audit current d ≡ (ok r, d')
    → d'.users ≡ update_where (λ u. u.id == user) (changed_row now role status) d.users
unfolding update_writes audit_in_tx
update_writes-users now audit_id user role status audit current d d' r h =
    ground (arith, revoke_all-users now user (set_role now user role status d))

-- An update that makes or keeps the account an active administrator takes no administrator away.
admins-le-update :
    (now : ℕ) (user role status : String) (users : List User)
    → (role ≡ role_admin)
    → (status ≡ status_active)
    → count_where is_active_admin users
      ≤ count_where is_active_admin
          (update_where (λ u. u.id == user) (changed_row now role status) users)
admins-le-update now user role status users r s =
    rw
      (count_where-update_where is_active_admin (λ u. u.id == user) (changed_row now role status)
        users)
      (count_where_mono is_active_admin
        (λ u. is_active_admin (updated (λ u. u.id == user) (changed_row now role status) u)) users
        (λ u h. ground (arith, eq_iff role role_admin, eq_iff status status_active)))

update-admins :
    (now : ℕ) (user role status : String) (current : User) (users : List User)
    → count_where (λ u. u.id == user) users ≤ 1
    → 1 ≤ count_where is_active_admin users
    → select_one (λ u. u.id == user) users ≡ some current
    → (removes_admin role status current ≡ true → 1 ≤ count_where (others user) users)
    → 1
      ≤ count_where is_active_admin
          (update_where (λ u. u.id == user) (changed_row now role status) users)
update-admins now user role status current users unique admin found left =
    let kept =
      others-le-update user (λ u. u.id == user) (changed_row now role status) users
        (λ u h. (eq_iff u.id user).0 h) (λ u. refl) in
    elim (Bool-cases (removes_admin role status current)) [
      | inl removes ↦ let n = left removes in omega arith
      | inr stays ↦ elim (Bool-cases (is_active_admin current)) [
        | inl is ↦
            let n =
              admins-le-update now user role status users
                ((eq_iff role role_admin).0 (ground arith))
                ((eq_iff status status_active).0 (ground arith)) in
            omega arith
        | inr isnt ↦ let n = admins-le-others user current users unique found isnt in omega arith
      ]
    ]

admin_update_user-admins :
    (dialect : Dialect) (now : ℕ) (audit_id actor user role status : String) (audit : AuditContext)
    (d : Tables)
    → UniqueIds d
    → 1 ≤ active_admins d
    → 1 ≤ active_admins (admin_update_user dialect now audit_id actor user role status audit d).1
unfolding admin_update_user
admin_update_user-admins dialect now audit_id actor user role status audit d unique admin =
    elim (Bool-cases (
      not (role == role_admin) && not (role == role_user)
      || not (status == status_active) && not (status == status_disabled))) [
        | inl e ↦ rw e admin
        | inr e ↦ rw e (
            transaction_keeps (λ t. 1 ≤ active_admins t)
              (update_checks dialect actor user role status
                >>= update_writes now audit_id user role status audit)
              d admin
              (λ r d' run.
                let step =
                  >>=-eq-ok (update_checks dialect actor user role status)
                    (update_writes now audit_id user role status audit) d d' r run in
                let checked =
                  update_checks-eq-ok dialect actor user role status d step.1 step.0 step.2 in
                let users =
                  update_writes-users now audit_id user role status audit step.0 step.1 d' r
                    step.3 in
                rw (users, checked.0)
                  (update-admins now user role status step.0 d.users (unique user) admin checked.1
                    checked.2)))
      ]

-- The changes of accounts that can take an administrator's rights away.
pub data AccountStep : Type 0 where
  leave : ℕ → String → String → AuditContext → AccountStep
  remove : ℕ → String → String → String → AuditContext → AccountStep
  change : ℕ → String → String → String → String → String → AuditContext → AccountStep

abbrev pub account_step : Dialect → AccountStep → Tables → Tables
account_step dialect (leave now audit_id user audit) d =
    (delete_account dialect now audit_id user audit d).1
account_step dialect (remove now audit_id actor user audit) d =
    (admin_delete_user dialect now audit_id actor user audit d).1
account_step dialect (change now audit_id actor user role status audit) d =
    (admin_update_user dialect now audit_id actor user role status audit d).1

-- Where the ids are unique and there is an active administrator, there still is one after an account
-- deletes itself, after an administrator deletes an account, and after an administrator changes the
-- role or the status of an account, for both drivers and whatever the operation returns.
pub account_step-active_admins :
    (dialect : Dialect) (step : AccountStep) (d : Tables)
    → UniqueIds d
    → 1 ≤ active_admins d
    → 1 ≤ active_admins (account_step dialect step d)
unfolding delete_account admin_delete_user
account_step-active_admins dialect (leave now audit_id user audit) d unique admin =
    delete_account_by-admins dialect now audit_id user "" false audit d unique admin
account_step-active_admins dialect (remove now audit_id actor user audit) d unique admin =
    elim (Bool-cases (trim_space actor == "" || actor == user)) [
      | inl e ↦ rw (e, account_step) admin
      | inr e ↦
          rw (e, account_step)
            (delete_account_by-admins dialect now audit_id user actor true audit d unique admin)
    ]
account_step-active_admins dialect (change now audit_id actor user role status audit) d unique
      admin =
    admin_update_user-admins dialect now audit_id actor user role status audit d unique admin
