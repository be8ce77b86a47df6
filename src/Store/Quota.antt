-- ===== src/Store/Quota.antt =====
-- internal/store/ai.go: the monthly quota of the assistant, and the credits that an administrator grants.
-- The month that the clock falls into, and its end, are arguments, as the clock is.
mod Tests
use Prim.Native.String.count
use classing_backend.Base.{
  ℕ, zero, suc, ◌+◌, ◌-◌, String, Bool, true, false, not, ◌&&◌, ◌||◌, Option, none, some, List, [],
  ◌∷◌, ◌++◌, leb, ltb, if◌then◌else◌, ◌==◌, nat_eq, string_eq,
}
use classing_backend.Base.Int.{ℤ, pos, negsuc}
use classing_backend.Base.Table.{select_one, count_where, update_where}
use classing_backend.Base.Text.{trim_space, rune_count}
use classing_backend.AiCost.{free_monthly_limit}
use classing_backend.Store.Core.{
  Error, not_found, invalid, database, duplicate_key, no_rows, normalize_db_error, Result, ok, err,
  Action, pure, fail, gets, or_fail, ◌>>=◌, ◌>>◌, fail_if, modify, transaction, commit, insert_row,
}
use classing_backend.Store.Rows.{User, Membership, Tables}
use classing_backend.Store.AiRows.{
  AiConfig, AiConversation, AiMessage, AiUsage, AiQuota, AiMonth, AiWallet, AiCredit, AiRequest,
  AiTables,
}
use classing_backend.Store.Accounts.{user_by_id, user_by_identifier}

abbrev pub quota_inherit : String
quota_inherit = "INHERIT"

abbrev pub quota_limited : String
quota_limited = "LIMITED"

abbrev pub quota_unlimited : String
quota_unlimited = "UNLIMITED"

abbrev pub quota_blocked : String
quota_blocked = "BLOCKED"

-- A negative limit is none.
abbrev pub quota_limit : String → ℕ → ℤ → ℤ
quota_limit mode own fallback =
    if mode == quota_unlimited
    then negsuc 0
    else if mode == quota_blocked
    then pos 0
    else if mode == quota_limited
    then pos own
    else fallback

-- An operation on the accounts alone.
abbrev pub on_accounts : {A : Type 0} → Action Tables A → Action AiTables A
on_accounts m d = let (r, t) = m d.accounts in (r, record d { accounts = t })

abbrev pub find_month : String → String → AiTables → Option AiMonth
find_month user period d = select_one (λ m. m.user_id == user && m.period == period) d.months

-- INSERT INTO ai_usage_monthly ... ON CONFLICT DO NOTHING
abbrev pub open_month : ℕ → String → String → AiTables → AiTables
open_month now user period d =
    if ltb 0 (count_where (λ m. m.user_id == user && m.period == period) d.months)
    then d
    else record d {
      months =
          d.months
          ++ record { user_id = user; period = period; used = 0; reserved = 0; updated_at = now }
            ∷ [];
    }

abbrev pub balance_of : String → AiTables → ℕ
balance_of user d = elim (select_one (λ w. w.user_id == user) d.wallets) [
  | none ↦ 0
  | some w ↦ w.balance
]

abbrev pub is_member_at : ℕ → String → AiTables → Bool
is_member_at now user d =
    ltb 0 (count_where (λ m. m.user_id == user && ltb now m.expires_at) d.accounts.memberships)

-- The mode and the limit of a user: those of the row, if there is one.
abbrev pub quota_of : String → AiTables → String × ℕ
quota_of user d = elim (select_one (λ q. q.user_id == user) d.quotas) [
  | none ↦ (quota_inherit, 0)
  | some q ↦ (q.mode, q.monthly_limit)
]

abbrev pub usage_of : ℕ → String → String → ℕ → AiConfig → AiMonth → AiTables → AiUsage
usage_of now user period reset_at config month d =
    let balance = balance_of user d in
    let member = is_member_at now user d in
    let (mode, own) = quota_of user d in
    record {
      period = period;
      limit =
          quota_limit mode own
            (if member then config.default_monthly_limit else pos free_monthly_limit);
      used = month.used;
      reserved = month.reserved;
      credit_balance = balance;
      credit_available = if member then balance else 0;
      credit_frozen = not member && ltb 0 balance;
      is_member = member;
      mode = mode;
      reset_at = reset_at;
    }

unfoldable pub ai_usage_tx : ℕ → String → ℕ → String → AiConfig → Action AiTables AiUsage
ai_usage_tx now period reset_at user config = do
  modify (open_month now user period)
  found ← gets (find_month user period)
  month ← or_fail found (database no_rows)
  gets (usage_of now user period reset_at config month)

unfoldable pub ai_config : Action AiTables AiConfig
ai_config = do found ← gets (λ d. d.config); or_fail found (normalize_db_error no_rows)

pub ai_usage : ℕ → String → ℕ → String → Action AiTables AiUsage
unfolding ai_config ai_usage_tx
ai_usage now period reset_at user = do
  config ← ai_config
  transaction do usage ← ai_usage_tx now period reset_at user config; commit usage

pub resolve_ai_user_id : String → Action AiTables String
resolve_ai_user_id identifier d =
    let identifier = trim_space identifier in
    if identifier == ""
    then fail invalid d
    else (let (r, t) = user_by_id identifier d.accounts in
        elim r [
          | ok user ↦ (ok user.id, d)
          | err not_found ↦ (do user ← on_accounts (user_by_identifier identifier); pure user.id) d
          | err e ↦ fail e d
        ])

abbrev contains_id : String → List String → Bool
contains_id id [] = false
contains_id id (j ∷ js) = j == id || contains_id id js

-- The loop that resolves the users, each once, in the order in which they are named first.
resolve_all : List String → List String → Action AiTables (List String)
unfolding resolve_ai_user_id
resolve_all seen [] d = (ok seen, d)
resolve_all seen (identifier ∷ rest) d =
    let (r, t) = resolve_ai_user_id identifier d in
    elim r [
      | err e ↦ (err e, t)
      | ok id ↦ resolve_all (if contains_id id seen then seen else seen ++ id ∷ []) rest t
    ]

-- INSERT INTO ai_user_quotas ... ON CONFLICT(user_id) DO UPDATE
abbrev pub put_quota : AiQuota → List AiQuota → List AiQuota
put_quota row rows =
    if ltb 0 (count_where (λ q. q.user_id == row.user_id) rows)
    then update_where (λ q. q.user_id == row.user_id) (λ q. row) rows
    else rows ++ row ∷ []

abbrev put_quotas : ℕ → String → String → ℕ → List String → List AiQuota → List AiQuota
put_quotas now actor mode limit [] rows = rows
put_quotas now actor mode limit (user ∷ users) rows = put_quotas now actor mode limit users (
    put_quota
      (record {
        user_id = user;
        mode = mode;
        monthly_limit = limit;
        updated_by = actor;
        updated_at = now;
      })
      rows)

abbrev is_quota_mode : String → Bool
is_quota_mode mode =
    mode == quota_inherit
    || mode == quota_limited
    || mode == quota_unlimited
    || mode == quota_blocked

abbrev list_length : List String → ℕ
list_length [] = 0
list_length (x ∷ xs) = suc (list_length xs)

-- The limit is not negative: the guard on it is the type.
pub set_ai_quota : ℕ → String → List String → String → ℕ → Action AiTables (Unit {0})
unfolding resolve_all
set_ai_quota now actor users mode limit =
    if list_length users == 0
      || ltb 500 (list_length users)
      || not (is_quota_mode mode)
      || mode == quota_limited && ltb limit 1
    then fail invalid
    else do
      resolved ← resolve_all [] users
      modify λ d. record d { quotas = put_quotas now actor mode limit resolved d.quotas }

-- INSERT INTO ai_credit_wallets ... ON CONFLICT(user_id) DO UPDATE
abbrev pub add_to_wallet : ℕ → String → ℕ → AiTables → AiTables
add_to_wallet now user points d = record d {
  wallets =
      if ltb 0 (count_where (λ w. w.user_id == user) d.wallets)
      then update_where (λ w. w.user_id == user)
          (λ w. record w { balance = w.balance + points; updated_at = now }) d.wallets
      else d.wallets ++ record { user_id = user; balance = points; updated_at = now } ∷ [];
}

-- INSERT INTO ai_credit_transactions. The callers differ in the error.
unfoldable pub add_credit : Error → AiCredit → Action AiTables (Unit {0})
add_credit on_duplicate row d = elim (insert_row (λ c. c.id == row.id) row d.credits) [
  | none ↦ fail on_duplicate d
  | some rows ↦ (ok tt, record d { credits = rows })
]

pub grant_ai_credits : ℕ → String → String → String → ℕ → String → Action AiTables ℕ
unfolding resolve_ai_user_id add_credit
grant_ai_credits now credit_id actor user points note =
    if trim_space user == ""
      || ltb points 1
      || ltb 100000000 points
      || ltb 240 (rune_count (trim_space note))
    then fail invalid
    else do
      id ← resolve_ai_user_id (trim_space user)
      transaction do
        exists ← gets (λ d. count_where (λ u. u.id == id) d.accounts.users)
        fail_if (not (exists == 1)) not_found
        modify (add_to_wallet now id points)
        balance ← gets (balance_of id)
        add_credit (normalize_db_error duplicate_key) (record {
          id = credit_id;
          user_id = id;
          points = pos points;
          balance_after = balance;
          source = "ADMIN_GRANT";
          reference_id = "";
          note = trim_space note;
          actor_id = actor;
          created_at = now;
        })
        commit balance
