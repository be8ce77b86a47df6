-- ===== src/Store/Memberships.antt =====
-- internal/store/membership.go: memberships, and how an administrator sets them.
mod Tests
use Prim.Native.Char.{code as char_code}
use Prim.Native.String.{len, slice}
use Prim.Native.String as String
use classing_backend.Base.{
  ℕ, zero, suc, ◌+◌, ◌*◌, max, String, Bool, true, false, not, ◌&&◌, ◌||◌, Option, none, some, List,
  [], ◌∷◌, ◌++◌, leb, ltb, if◌then◌else◌, ◌==◌, nat_eq, string_eq,
}
use Prim.Native.String.{◌++◌ as concat}
use classing_backend.Base.Table.{select_one, count_where, update_where}
use classing_backend.Base.Text.{trim_space, to_upper}
use classing_backend.Store.Core.{
  Error, not_found, conflict, forbidden, invalid, unavailable, database, duplicate_key, no_rows,
  normalize_db_error, Result, ok, err, Action, pure, fail, gets, or_fail, ◌>>=◌, ◌>>◌, fail_if,
  modify, transaction, commit, insert_row,
}
use classing_backend.Store.Rows.{
  Membership, RedeemCode, Redemption, MembershipEvent, AuditContext, redeemed, membership_set,
  Tables,
}
use classing_backend.Store.Accounts.{audit_in_tx, free_membership}

abbrev pub find_membership : String → Tables → Option Membership
find_membership user d = select_one (λ m. m.user_id == user) d.memberships

-- A user without a row gets the free membership.
unfoldable pub membership : ℕ → String → Action Tables Membership
membership now user d = elim (find_membership user d) [
  | some m ↦ (ok m, d)
  | none ↦ (
    ok (free_membership now user),
    record d { memberships = d.memberships ++ free_membership now user ∷ [] },
  )
]

-- INSERT INTO memberships ... ON CONFLICT(user_id) DO UPDATE
abbrev pub put_membership : Membership → Tables → Tables
put_membership row d = record d {
  memberships =
      if ltb 0 (count_where (λ m. m.user_id == row.user_id) d.memberships)
      then update_where (λ m. m.user_id == row.user_id)
          (λ m. record m {
            tier = row.tier;
            expires_at = row.expires_at;
            updated_at = row.updated_at;
            source = row.source;
          })
          d.memberships
      else d.memberships ++ row ∷ [];
}

-- INSERT INTO membership_events
unfoldable pub add_event : MembershipEvent → Action Tables (Unit {0})
add_event row d = elim (insert_row (λ e. e.id == row.id) row d.membership_events) [
  | none ↦ fail (database duplicate_key) d
  | some rows ↦ (ok tt, record d { membership_events = rows })
]

-- The audit row, where the caller has asked for one.
unfoldable pub audit_if : ℕ → String → Option AuditContext → Action Tables (Unit {0})
audit_if now id none = pure tt
audit_if now id (some audit) = audit_in_tx now id audit

-- When the present membership of a user runs out; 0 where there is none.
abbrev pub expiry : String → Tables → ℕ
expiry user d = elim (find_membership user d) [ none ↦ 0 | some m ↦ m.expires_at ]

abbrev valid_tier : String → Bool
valid_tier tier =
    tier == "FREE"
    || tier == "MONTHLY"
    || tier == "ANNUAL"
    || tier == "PREMIUM"
    || tier == "REDEEMED"

abbrev valid_action : String → Bool
valid_action action =
    action == "GRANT" || action == "EXTEND" || action == "SHORTEN" || action == "REVOKE"

-- The expiry is not negative: the guard on it is the type.
pub set_membership :
    ℕ
    → ℕ
    → String
    → String
    → String
    → String
    → String
    → ℕ
    → String
    → Option AuditContext
    → Action Tables Membership
unfolding add_event audit_if
set_membership now later event_id audit_id actor user tier expires_at action audit =
    let tier = to_upper (trim_space tier) in
    let tier = if tier == "" then "MONTHLY" else tier in
    let action = to_upper (trim_space action) in
    if not (valid_tier tier) || not (valid_action action) then fail invalid else do
      transaction do
        old ← gets (expiry user)
        modify (
            put_membership (record {
              user_id = user;
              tier = tier;
              expires_at = expires_at;
              updated_at = now;
              source = "ADMIN";
            }))
        add_event (record {
          id = event_id;
          user_id = user;
          action = action;
          tier = tier;
          old_expires_at = old;
          new_expires_at = expires_at;
          source = "ADMIN";
          actor_id = actor;
          created_at = now;
        })
        audit_if now audit_id (elim audit [
          | none ↦ none
          | some a ↦ some (record a { metadata = membership_set action tier old expires_at })
        ])
        commit tt
      membership later user
