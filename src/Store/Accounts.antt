-- ===== src/Store/Accounts.antt =====
-- internal/store/users.go: the accounts, and internal/store/admin.go: the audit row of a transaction.
pub mod Rights
mod Tests
use Prim.Native.String.{len, slice}
use Prim.Native.String.{◌++◌ as concat}
use classing_backend.Base.{
  ℕ, ◌-◌, ◌+◌, String, Bool, true, false, not, ◌&&◌, ◌||◌, Option, none, some, List, [], ◌∷◌, ◌++◌,
  map, leb, ltb, if◌then◌else◌, ◌==◌, nat_eq, string_eq,
}
use classing_backend.Base.Table.{select_one, select_where, count_where, update_where}
use classing_backend.Base.Text.{trim_space, to_lower, equal_fold}
use classing_backend.Store.Core.{
  Error, not_found, conflict, forbidden, invalid, database, duplicate_key, no_rows,
  normalize_db_error, Result, ok, err, Action, pure, fail, gets, or_fail, ◌>>=◌, ◌>>◌, fail_if,
  modify, transaction, commit, insert_row,
}
use classing_backend.Store.Rows.{
  User, Membership, AuditContext, AuditLog, Metadata, deleted_at, Tables, role_admin, role_user,
  status_active, status_disabled, status_pending, status_deleted,
}
use classing_backend.Store.Sessions.{revoke_all}

-- The driver: SQLite, or PostgreSQL through pgx.
pub data Dialect : Type 0 where
  sqlite pgx : Dialect

-- INSERT INTO audit_logs
unfoldable pub audit_in_tx : ℕ → String → AuditContext → Action Tables (Unit {0})
audit_in_tx now id audit d =
    let row : AuditLog = record { id = id; entry = audit; created_at = now } in
    elim (insert_row (λ l. l.id == id) row d.audit_logs) [
      | none ↦ fail (database duplicate_key) d
      | some rows ↦ (ok tt, record d { audit_logs = rows })
    ]

-- INSERT INTO users: `id`, `username` and `email` are unique.
add_user : User → Action Tables (Unit {0})
add_user row d =
    elim (insert_row (λ u. u.id == row.id || u.username == row.username || u.email == row.email) row
      d.users) [
        | none ↦ fail (normalize_db_error duplicate_key) d
        | some rows ↦ (ok tt, record d { users = rows })
      ]

abbrev pub free_membership : ℕ → String → Membership
free_membership now user = record {
  user_id = user;
  tier = "FREE";
  expires_at = 0;
  updated_at = now;
  source = "SYSTEM";
}

-- The membership row of a new account; the statement's error is dropped.
add_free_membership : ℕ → String → Tables → Tables
add_free_membership now user d =
    elim (insert_row (λ m. m.user_id == user) (free_membership now user) d.memberships) [
      | none ↦ d
      | some rows ↦ record d { memberships = rows }
    ]

new_user : ℕ → String → String → String → String → String → String → User
new_user now id username email password_hash role status = record {
  id = id;
  username = username;
  email = email;
  password_hash = password_hash;
  role = role;
  status = status;
  email_verified = 0;
  auth_epoch = 0;
  created_at = now;
  updated_at = now;
}

pub create_user : ℕ → String → String → String → String → String → Action Tables User
unfolding add_user add_free_membership new_user
create_user now id username email password_hash role = do
  let user =
      new_user now id (trim_space username) (to_lower (trim_space email)) password_hash role
        status_active
  add_user user
  modify (add_free_membership now id)
  pure user

unfoldable pub user_by_id : String → Action Tables User
user_by_id id = do
  found ← gets (λ d. select_one (λ u. u.id == id) d.users)
  or_fail found (normalize_db_error no_rows)

unfoldable pub user_by_identifier : String → Action Tables User
user_by_identifier identifier = do
  let value = to_lower (trim_space identifier)
  found ←
      gets
        (λ d. select_one (λ u. to_lower u.email == value || to_lower u.username == value) d.users)
  or_fail found (normalize_db_error no_rows)

-- The account that an identifier names; that there is none is no failure.
abbrev found_user : Result User → Result (Option User)
found_user (ok user) = ok (some user)
found_user (err not_found) = ok none
found_user (err e) = err e

-- One round of the loop over the e-mail address and the user name: an account that it finds must be
-- the pending one of this very registration, and gets the new password.
pending_round : ℕ → String → String → String → String → Action Tables (Option User)
unfolding user_by_identifier user_by_id
pending_round now username email password_hash identifier d =
    let (r, d') = user_by_identifier identifier d in
    elim (found_user r) [
      | err e ↦ (err e, d')
      | ok none ↦ (ok none, d')
      | ok (some existing) ↦
          (do
            fail_if
                (not (existing.status == status_pending)
                  || not (equal_fold existing.email email)
                  || not (equal_fold existing.username username))
                conflict
            modify λ d. record d {
              users =
                  update_where (λ u. u.id == existing.id && u.status == status_pending)
                    (λ u. record u { password_hash = password_hash; updated_at = now }) d.users;
            }
            user ← user_by_id existing.id
            pure (some user))
            d'
    ]

-- The loop's rounds in turn, and then the new account.
pub create_or_refresh_pending_user : ℕ → String → String → String → String → Action Tables User
unfolding pending_round add_user add_free_membership new_user
create_or_refresh_pending_user now id username email password_hash = do
  let username' = trim_space username
  let email' = to_lower (trim_space email)
  by_email ← pending_round now username' email' password_hash email'
  elim by_email [
    | some user ↦ pure user
    | none ↦ (do
      by_name ← pending_round now username' email' password_hash username'
      elim by_name [
        | some user ↦ pure user
        | none ↦ (do
          let user = new_user now id username' email' password_hash role_user status_pending
          add_user user
          modify (add_free_membership now id)
          pure user)
      ])
  ]

-- `hash` is what auth.HashPassword makes of the password, or its error.
pub bootstrap_admin : ℕ → String → String → String → String → Result String → Action Tables Bool
unfolding user_by_identifier create_user
bootstrap_admin now id username email password hash d =
    if trim_space email == "" || password == ""
    then (ok false, d)
    else (elim (found_user (user_by_identifier email d).0) [
      | err e ↦ (err e, d)
      | ok (some _) ↦ (ok false, d)
      | ok none ↦ elim hash [
        | err e ↦ (err e, d)
        | ok h ↦ (do create_user now id username email h role_admin; pure true) d
      ]
    ])

pub update_username : ℕ → String → String → Action Tables User
unfolding user_by_id
update_username now id username = do
  let name = trim_space username
  clash ← gets (λ d. count_where (λ u. u.username == name && not (u.id == id)) d.users)
  affected ← gets (λ d. count_where (λ u. u.id == id) d.users)
  fail_if (ltb 0 clash && ltb 0 affected) (normalize_db_error duplicate_key)
  modify λ d. record d {
    users =
        update_where (λ u. u.id == id) (λ u. record u { username = name; updated_at = now })
          d.users;
  }
  fail_if (affected == 0) not_found
  user_by_id id

-- UPDATE users SET password_hash, auth_epoch, updated_at WHERE id
abbrev pub set_password : ℕ → String → String → Tables → Tables
set_password now id hash d = record d {
  users =
      update_where (λ u. u.id == id)
        (λ u. record u { password_hash = hash; auth_epoch = now; updated_at = now }) d.users;
}

unfoldable pub update_password : ℕ → String → String → Action Tables (Unit {0})
update_password now id hash = transaction do
  affected ← gets (λ d. count_where (λ u. u.id == id) d.users)
  modify (set_password now id hash)
  fail_if (affected == 0) not_found
  modify (revoke_all now id)
  commit tt
