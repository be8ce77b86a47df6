-- ===== src/Store/Redeem/Budget.antt =====
-- How often a code of internal/store/membership.go can be redeemed.
use classing_backend.Base.{
  ℕ, ◌<◌, ◌+◌, ◌≤◌, ◌≡◌, refl, ◌∙◌, ap, sym, String, ◌&&◌, Option, none, some, [], ◌∷◌, ◌++◌, arith,
  ltb, ◌==◌, nat_eq, string_eq, inl, inr, Bool-cases, Option-cases,
}
use text.Mathlib.TextEquality.{eq_iff}
use classing_backend.Base.Table.{
  count_where, updated, count_where-append, select_one-update_where, select_one_passes,
}
use classing_backend.Base.Text.{trim_space, to_upper}
use classing_backend.Store.Core.{
  Result, ok, transaction, transaction_keeps, ◌>>=◌, >>=-eq-ok, >>=_keeps,
}
use classing_backend.Store.Rows.{RedeemCode, Redemption, AuditContext, Tables}
use classing_backend.Store.Accounts.{audit_in_tx}
use classing_backend.Store.Memberships.{membership, add_event, audit_if, find_membership}
use classing_backend.Store.Redeem.{
  find_code, count_redemption, add_redemption, redeem_checks, redeem_writes, redeem,
}

-- The redemptions of a code by anyone.
abbrev pub redemptions_of : String → Tables → ℕ
redemptions_of code d = count_where (λ r. r.code == code) d.redemptions

-- Each code counts its redemptions, and there are not more than it allows.
abbrev pub Budgeted : Tables → Type 0
Budgeted d =
    (code : String) (item : RedeemCode)
    → find_code code d ≡ some item
    → (redemptions_of code d ≡ item.current_redemptions)
      × (item.current_redemptions ≤ item.max_redemptions)

pub redeem_checks-eq-ok :
    (now : ℕ) (user code : String) (d d' : Tables) (item : RedeemCode)
    → redeem_checks now user code d ≡ (ok item, d')
    → (d' ≡ d)
      × (find_code item.code d ≡ some item)
      × (item.current_redemptions < item.max_redemptions)
      × (count_where (λ r. r.code == item.code && r.user_id == user) d.redemptions ≡ 0)
      × (item.code ≡ to_upper (trim_space code))
unfolding redeem_checks
redeem_checks-eq-ok now user code d d' item h =
    elim (Option-cases (find_code (to_upper (trim_space code)) d)) [
      | inl e ↦ absurd (ground arith)
      | inr (found, e) ↦
          let same : found ≡ item = ground arith in
          let key : item.code ≡ to_upper (trim_space code) =
            ap (λ c. c.code) (sym same)
            ∙ (eq_iff found.code (to_upper (trim_space code))).0
                (select_one_passes (λ c. c.code == to_upper (trim_space code)) d.redeem_codes found
                  e).0 in
          (
            ground arith,
            ap (λ k. find_code k d) key ∙ e ∙ ap some same,
            ground arith,
            ground arith,
            key,
          )
    ]

abbrev pub new_redemption : ℕ → String → String → RedeemCode → Redemption
new_redemption now id user item = record {
  id = id;
  code = item.code;
  user_id = user;
  grant_days = item.grant_days;
  redeemed_at = now;
}

pub redeem_writes-eq-ok :
    (now : ℕ) (redemption_id event_id audit_id user : String) (audit : Option AuditContext)
    (item : RedeemCode) (d d' : Tables) (r : Result (Unit {0}))
    → redeem_writes now redemption_id event_id audit_id user audit item d ≡ (ok r, d')
    → (d'.redeem_codes ≡ (count_redemption item.code d).redeem_codes)
      × (d'.redemptions ≡ d.redemptions ++ new_redemption now redemption_id user item ∷ [])
unfolding redeem_writes add_redemption add_event audit_if audit_in_tx
redeem_writes-eq-ok now redemption_id event_id audit_id user none item d d' r h =
    (ground arith, ground arith)
redeem_writes-eq-ok now redemption_id event_id audit_id user (some a) item d d' r h =
    (ground arith, ground arith)

pub find_code-counted :
    (code key : String) (d : Tables)
    → find_code code (count_redemption key d) ≡ (elim (find_code code d) [
      | none ↦ none
      | some c ↦ some (
          updated
            (λ c. c.code == key && ltb c.current_redemptions c.max_redemptions)
            (λ c. record c { current_redemptions = c.current_redemptions + 1 })
            c)
    ])
find_code-counted code key d =
    select_one-update_where (λ c. c.code == code)
      (λ c. c.code == key && ltb c.current_redemptions c.max_redemptions)
      (λ c. record c { current_redemptions = c.current_redemptions + 1 }) d.redeem_codes (λ c. refl)

counted-Budgeted :
    (now : ℕ) (id user : String) (item : RedeemCode) (d d' : Tables)
    → find_code item.code d ≡ some item
    → item.current_redemptions < item.max_redemptions
    → d'.redeem_codes ≡ (count_redemption item.code d).redeem_codes
    → d'.redemptions ≡ d.redemptions ++ new_redemption now id user item ∷ []
    → Budgeted d
    → Budgeted d'
counted-Budgeted now id user item d d' e room codes redemptions budget code item' found =
    elim (Option-cases (find_code code d)) [
      | inl e' ↦ absurd (ground (arith, find_code-counted code item.code d))
      | inr (old, is) ↦
          let mine = select_one_passes (λ c. c.code == code) d.redeem_codes old is in
          let before = budget code old is in
          let more =
            count_where-append (λ r. r.code == code) d.redemptions
              (new_redemption now id user item ∷ []) in
          let after : item'
              ≡ updated (λ c. c.code == item.code && ltb c.current_redemptions c.max_redemptions)
                  (λ c. record c { current_redemptions = c.current_redemptions + 1 }) old =
            ground (arith, find_code-counted code item.code d) in
          elim (Bool-cases (item.code == code)) [
            | inl same ↦
                let one : old ≡ item = ground (arith, eq_iff item.code code) in
                ground (arith, eq_iff old.code item.code)
            | inr other ↦
                ground
                  (arith, eq_iff old.code code, eq_iff old.code item.code, eq_iff item.code code)
          ]
    ]

membership-Budgeted :
    (now : ℕ) (user : String) (d : Tables) → Budgeted d → Budgeted (membership now user d).1
unfolding membership
membership-Budgeted now user d b = elim (Option-cases (find_membership user d)) [
  | inl e ↦ rw (e, membership) b
  | inr (m, e) ↦ rw (e, membership) b
]

-- Where every code counts its redemptions and has no more of them than it allows, that still holds
-- after a redemption, whatever the redemption returns.
pub redeem-Budgeted :
    (now later : ℕ) (redemption_id event_id audit_id user code : String)
    (audit : Option AuditContext) (d : Tables)
    → Budgeted d
    → Budgeted (redeem now later redemption_id event_id audit_id user code audit d).1
unfolding redeem
redeem-Budgeted now later redemption_id event_id audit_id user code audit d b =
    let writes = redeem_writes now redemption_id event_id audit_id user audit in
    >>=_keeps Budgeted (transaction (redeem_checks now user code >>= writes))
      (λ _. membership later user) d
      (transaction_keeps Budgeted (redeem_checks now user code >>= writes) d b (λ r d' run.
        let step = >>=-eq-ok (redeem_checks now user code) writes d d' r run in
        let checked = redeem_checks-eq-ok now user code d step.1 step.0 step.2 in
        let written =
          redeem_writes-eq-ok now redemption_id event_id audit_id user audit step.0 d d' r
            (ap (λ t. writes step.0 t) (sym checked.0) ∙ step.3) in
        counted-Budgeted now redemption_id user step.0 d d' checked.1 checked.2 written.0 written.1
          b))
      (λ _ d' kept. membership-Budgeted later user d' kept)
