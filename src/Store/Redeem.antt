-- ===== src/Store/Redeem.antt =====
-- internal/store/membership.go: the codes that extend a membership.
pub mod Budget
pub mod Once
mod Tests
use Prim.Native.Char.{code as char_code}
use Prim.Native.String.{len, slice}
use Prim.Native.String as String
use classing_backend.Base.{
  ℕ, zero, suc, ◌+◌, ◌*◌, max, String, Bool, true, false, not, ◌&&◌, ◌||◌, Option, none, some, List,
  [], ◌∷◌, ◌++◌, leb, ltb, if◌then◌else◌, ◌==◌, nat_eq, string_eq,
}
use Prim.Native.String.{◌++◌ as concat}
use classing_backend.Base.Table.{select_one, count_where, update_where}
use classing_backend.Base.Text.{trim_space, to_upper}
use classing_backend.Store.Core.{
  Error, not_found, conflict, forbidden, invalid, unavailable, database, duplicate_key, no_rows,
  normalize_db_error, Result, ok, err, Action, pure, fail, gets, or_fail, ◌>>=◌, ◌>>◌, fail_if,
  modify, transaction, commit, insert_row,
}
use classing_backend.Store.Rows.{
  Membership, RedeemCode, Redemption, MembershipEvent, AuditContext, redeemed, membership_set,
  Tables,
}
use classing_backend.Store.Accounts.{audit_in_tx, free_membership}
use classing_backend.Store.Memberships.{membership, put_membership, add_event, expiry, audit_if}

-- strings.ReplaceAll(token, "-", "X")
abbrev replace_dashes : String → String
replace_dashes String.[] = String.[]
replace_dashes (String.◌∷◌ c s) =
    let rest = replace_dashes s in
    if char_code c == b'-' then concat "X" rest else String.◌∷◌ c rest

-- The code that is made of a random token.
pub format_redeem_code : String → String
format_redeem_code token =
    let raw = to_upper (replace_dashes token) in
    let raw = if ltb (len raw) 12 then concat raw "CLASSINGCODE" else raw in
    concat "CLS-"
      (concat (slice raw 0 4) (concat "-" (concat (slice raw 4 8) (concat "-" (slice raw 8 12)))))

new_code : ℕ → String → String → ℕ → ℕ → ℕ → String → RedeemCode
new_code now actor code_type grant_days max_redemptions expires_at code = record {
  code = code;
  code_type = code_type;
  grant_days = grant_days;
  max_redemptions = max_redemptions;
  current_redemptions = 0;
  expires_at = expires_at;
  revoked_at = 0;
  created_by = actor;
  created_at = now;
}

-- The loop: a code that exists already is made again. There is no result if the random tokens run out.
abbrev insert_codes :
    (String → RedeemCode)
    → ℕ
    → List String
    → List RedeemCode
    → Option (List RedeemCode × List RedeemCode)
insert_codes make zero tokens rows = some ([], rows)
insert_codes make (suc n) [] rows = none
insert_codes make (suc n) (token ∷ tokens) rows =
    let item = make (format_redeem_code token) in
    let again = insert_codes make (suc n) tokens rows in
    let next = insert_codes make n tokens (rows ++ item ∷ []) in
    if ltb 0 (count_where (λ c. c.code == item.code) rows)
    then again
    else (elim next [ none ↦ none | some (items, rows') ↦ some (item ∷ items, rows') ])

-- `tokens` is the random source.
pub create_redeem_codes :
    ℕ
    → List String
    → String
    → String
    → ℕ
    → ℕ
    → ℕ
    → ℕ
    → Tables
    → Option (Result (List RedeemCode) × Tables)
unfolding new_code format_redeem_code
create_redeem_codes now tokens actor code_type count grant_days max_redemptions expires_at d =
    let code_type = to_upper (trim_space code_type) in
    let max_redemptions = if code_type == "UNIQUE" then 1 else max_redemptions in
    if not (code_type == "UNIQUE") && not (code_type == "CAMPAIGN")
      || (ltb count 1 || ltb 500 count || ltb grant_days 1 || ltb 3650 grant_days)
      || (ltb max_redemptions 1 || ltb 100000 max_redemptions)
    then some (err invalid, d)
    else (elim (insert_codes (new_code now actor code_type grant_days max_redemptions expires_at)
        count tokens d.redeem_codes) [
          | none ↦ none
          | some (items, rows) ↦ some (ok items, record d { redeem_codes = rows })
        ])

pub revoke_redeem_code : ℕ → String → Action Tables (Unit {0})
revoke_redeem_code now code = do
  let code = to_upper (trim_space code)
  affected ← gets (λ d. count_where (λ c. c.code == code && c.revoked_at == 0) d.redeem_codes)
  modify λ d. record d {
    redeem_codes =
        update_where (λ c. c.code == code && c.revoked_at == 0) (λ c. record c { revoked_at = now })
          d.redeem_codes;
  }
  fail_if (affected == 0) not_found

-- INSERT INTO redeem_redemptions: `id` is unique, and so is the pair of the code and the user.
add_redemption : Redemption → Action Tables (Unit {0})
add_redemption row d =
    elim (insert_row (λ r. r.id == row.id || r.code == row.code && r.user_id == row.user_id) row
      d.redemptions) [
        | none ↦ fail (normalize_db_error duplicate_key) d
        | some rows ↦ (ok tt, record d { redemptions = rows })
      ]

abbrev pub find_code : String → Tables → Option RedeemCode
find_code code d = select_one (λ c. c.code == code) d.redeem_codes

abbrev extended : ℕ → ℕ → ℕ → ℕ
extended now old grant_days = max now old + grant_days * 24 * 3600000

-- UPDATE redeem_codes SET current_redemptions = current_redemptions + 1
abbrev pub count_redemption : String → Tables → Tables
count_redemption code d = record d {
  redeem_codes =
      update_where (λ c. c.code == code && ltb c.current_redemptions c.max_redemptions)
        (λ c. record c { current_redemptions = c.current_redemptions + 1 }) d.redeem_codes;
}

-- The code, if the user may redeem it.
pub redeem_checks : ℕ → String → String → Action Tables RedeemCode
redeem_checks now user code = do
  found ← gets (find_code (to_upper (trim_space code)))
  item ← or_fail found (normalize_db_error no_rows)
  fail_if (not (item.revoked_at == 0) || not (item.expires_at == 0) && leb item.expires_at now)
      forbidden
  fail_if (leb item.max_redemptions item.current_redemptions) unavailable
  existing ← gets (λ d. count_where (λ r. r.code == item.code && r.user_id == user) d.redemptions)
  fail_if (ltb 0 existing) conflict
  pure item

pub redeem_writes :
    ℕ
    → String
    → String
    → String
    → String
    → Option AuditContext
    → RedeemCode
    → Action Tables (Result (Unit {0}))
unfolding add_redemption add_event audit_if
redeem_writes now redemption_id event_id audit_id user audit item = do
  affected ← gets λ d.
      count_where (λ c. c.code == item.code && ltb c.current_redemptions c.max_redemptions)
        d.redeem_codes
  modify (count_redemption item.code)
  fail_if (not (affected == 1)) unavailable
  old ← gets (expiry user)
  let until = extended now old item.grant_days
  modify (
      put_membership (record {
        user_id = user;
        tier = "REDEEMED";
        expires_at = until;
        updated_at = now;
        source = "REDEEM_CODE";
      }))
  add_redemption (record {
    id = redemption_id;
    code = item.code;
    user_id = user;
    grant_days = item.grant_days;
    redeemed_at = now;
  })
  add_event (record {
    id = event_id;
    user_id = user;
    action = "GRANT";
    tier = "REDEEMED";
    old_expires_at = old;
    new_expires_at = until;
    source = "REDEEM_CODE";
    actor_id = user;
    created_at = now;
  })
  audit_if now audit_id (elim audit [
    | none ↦ none
    | some a ↦ some (record a { metadata = redeemed (slice item.code 0 7) until })
  ])
  commit tt

-- `later` is the time at which the membership is read back.
pub redeem :
    ℕ
    → ℕ
    → String
    → String
    → String
    → String
    → String
    → Option AuditContext
    → Action Tables Membership
unfolding redeem_checks redeem_writes
redeem now later redemption_id event_id audit_id user code audit = do
  transaction do
    item ← redeem_checks now user code
    redeem_writes now redemption_id event_id audit_id user audit item
  membership later user
