-- ===== src/Store/Devices.antt =====
-- internal/store/device_authorizations.go: a device shows an id, a signed-in user approves it, and the
-- device, which alone knows the poll secret, turns the approval into a session.
pub mod Once
mod Tests
use classing_backend.Base.{
  ℕ, ◌-◌, ◌*◌, String, Bool, true, false, not, ◌&&◌, ◌||◌, Option, none, some, List, leb, ltb,
  if◌then◌else◌, ◌==◌, nat_eq, string_eq,
}
use classing_backend.Base.Table.{select_one, count_where, update_where, delete_where}
use classing_backend.Store.Core.{
  conflict, forbidden, device_authorization_pending, device_authorization_expired,
  device_authorization_consumed, duplicate_key, no_rows, normalize_db_error, Result, ok, err,
  Action, pure, fail, gets, or_fail, ◌>>=◌, ◌>>◌, fail_if, modify, transaction, commit, insert_row,
}
use classing_backend.Store.Rows.{User, DeviceAuthorization, Tables, status_active}
use classing_backend.Store.Sessions.{open_session}

-- The DELETE's own error is dropped, and it commits even if the INSERT fails.
pub create_device_authorization :
    ℕ → String → String → String → ℕ → String → String → Action Tables (Unit {0})
create_device_authorization now id poll_secret_hash device_name expires_at ip ua d =
    let kept =
      delete_where (λ a. ltb a.expires_at (now - 24 * 60 * 60 * 1000)) d.device_authorizations in
    let row : DeviceAuthorization = record {
      id = id;
      poll_secret_hash = poll_secret_hash;
      user_id = none;
      device_name = device_name;
      expires_at = expires_at;
      approved_at = 0;
      consumed_at = 0;
      request_ip = ip;
      request_ua = ua;
      created_at = now;
    } in
    elim (insert_row (λ a. a.id == id || a.poll_secret_hash == poll_secret_hash) row kept) [
      | none ↦ fail (normalize_db_error duplicate_key) (record d { device_authorizations = kept })
      | some rows ↦ (ok tt, record d { device_authorizations = rows })
    ]

-- item.UserID.Valid && item.UserID.String == userID
abbrev pub is_bound_to : String → Option String → Bool
is_bound_to user none = false
is_bound_to user (some u) = u == user

abbrev pub find_authorization : String → Tables → Option DeviceAuthorization
find_authorization id d = select_one (λ a. a.id == id) d.device_authorizations

approve_new : ℕ → String → String → DeviceAuthorization → Action Tables (Result ℕ)
approve_new now id user item = do
  affected ← gets (λ d.
      count_where (λ a. a.id == id && a.approved_at == 0 && a.consumed_at == 0)
        d.device_authorizations)
  modify λ d. record d {
    device_authorizations =
        update_where (λ a. a.id == id && a.approved_at == 0 && a.consumed_at == 0)
          (λ a. record a { user_id = some user; approved_at = now }) d.device_authorizations;
  }
  fail_if (not (affected == 1)) conflict
  commit item.expires_at

pub approve_device_authorization : ℕ → String → String → Action Tables ℕ
unfolding approve_new
approve_device_authorization now id user = transaction do
  found ← gets (find_authorization id)
  item ← or_fail found (normalize_db_error no_rows)
  fail_if (leb item.expires_at now) device_authorization_expired
  fail_if (not (item.consumed_at == 0)) device_authorization_consumed
  if not (item.approved_at == 0)
      then (if is_bound_to user item.user_id then commit item.expires_at else fail conflict)
      else approve_new now id user item

abbrev pub find_polled : String → String → Tables → Option DeviceAuthorization
find_polled id poll_secret_hash d =
    select_one (λ a. a.id == id && a.poll_secret_hash == poll_secret_hash) d.device_authorizations

-- The user that approved: pending if nobody has.
abbrev pub approver : DeviceAuthorization → Option String
approver item =
    if item.approved_at == 0
    then none
    else (elim item.user_id [ none ↦ none | some u ↦ if u == "" then none else some u ])

pub consume_device_authorization_and_create_session :
    ℕ
    → String
    → String
    → String
    → String
    → String
    → ℕ
    → String
    → String
    → Action Tables (User × String)
consume_device_authorization_and_create_session now session_id refresh_id id poll_secret_hash
      refresh_token_hash refresh_expires_at ip ua =
    transaction do
      found ← gets (find_polled id poll_secret_hash)
      item ← or_fail found (normalize_db_error no_rows)
      fail_if (leb item.expires_at now) device_authorization_expired
      fail_if (not (item.consumed_at == 0)) device_authorization_consumed
      user_id ← or_fail (approver item) device_authorization_pending
      owner ← gets (λ d. select_one (λ u. u.id == user_id) d.users)
      user ← or_fail owner (normalize_db_error no_rows)
      fail_if (not (user.status == status_active)) forbidden
      affected ←
          gets (λ d. count_where (λ a. a.id == id && a.consumed_at == 0) d.device_authorizations)
      modify λ d. record d {
        device_authorizations =
            update_where (λ a. a.id == id && a.consumed_at == 0)
              (λ a. record a { consumed_at = now }) d.device_authorizations;
      }
      fail_if (not (affected == 1)) device_authorization_consumed
      open_session now session_id refresh_id user.id refresh_token_hash refresh_expires_at ip ua
      commit (user, session_id)
