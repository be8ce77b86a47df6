-- ===== src/Store/Redeem/Once.antt =====
-- What a redemption, internal/store/membership.go, gives a user.
use classing_backend.Base.{
  ℕ, ◌+◌, ◌*◌, ◌≤◌, ◌≡◌, refl, ◌∙◌, ap, sym, ◌⊎◌, max, String, ◌&&◌, Option, none, some, [], ◌∷◌,
  ◌++◌, arith, ltb, ◌==◌, nat_eq, string_eq, inl, inr, Option-cases,
}
use text.Mathlib.TextEquality.{eq_iff}
use classing_backend.Base.Table.{
  select_one, count_where, updated, count_where-append, select_one-append, select_one-update_where,
  select_one_passes, select_one-none,
}
use classing_backend.Base.Text.{trim_space, to_upper}
use classing_backend.Store.Core.{
  conflict, forbidden, unavailable, Result, ok, err, transaction, transaction-eq-ok, ◌>>=◌,
  >>=-eq-ok,
}
use classing_backend.Store.Rows.{RedeemCode, AuditContext, Membership, Tables}
use classing_backend.Store.Accounts.{audit_in_tx}
use classing_backend.Store.Memberships.{
  membership, add_event, audit_if, expiry, put_membership, find_membership,
}
use classing_backend.Store.Redeem.{
  find_code, count_redemption, add_redemption, redeem_checks, redeem_writes, redeem, extended,
}
use classing_backend.Store.Redeem.Budget.{
  redeem_checks-eq-ok, redeem_writes-eq-ok, new_redemption, find_code-counted,
}

-- The membership that a redemption makes.
abbrev pub redeemed_until : ℕ → String → ℕ → Membership
redeemed_until now user until = record {
  user_id = user;
  tier = "REDEEMED";
  expires_at = until;
  updated_at = now;
  source = "REDEEM_CODE";
}

find_membership-put :
    (row : Membership) (d : Tables) → find_membership row.user_id (put_membership row d) ≡ some row
find_membership-put row d = elim (Option-cases (find_membership row.user_id d)) [
  | inl e ↦ ground (
    arith,
    select_one-none (λ m. m.user_id == row.user_id) d.memberships e,
    select_one-append (λ m. m.user_id == row.user_id) d.memberships (row ∷ []),
    eq_iff row.user_id row.user_id,
  )
  | inr (m, e) ↦
      let found = select_one_passes (λ m. m.user_id == row.user_id) d.memberships m e in
      let put : Membership → Membership = λ m. record m {
        tier = row.tier;
        expires_at = row.expires_at;
        updated_at = row.updated_at;
        source = row.source;
      } in
      let same : put m ≡ row =
        ap (λ u. record row { user_id = u }) ((eq_iff m.user_id row.user_id).0 found.0) in
      ground (
        arith,
        select_one-update_where (λ m. m.user_id == row.user_id) (λ m. m.user_id == row.user_id) put
            d.memberships (λ m. refl),
      )
]

redeem_writes-memberships :
    (now : ℕ) (redemption_id event_id audit_id user : String) (audit : Option AuditContext)
    (item : RedeemCode) (d d' : Tables) (r : Result (Unit {0}))
    → redeem_writes now redemption_id event_id audit_id user audit item d ≡ (ok r, d')
    → (d'.memberships
        ≡ (put_membership
            (redeemed_until now user (extended now (expiry user d) item.grant_days))
            d).memberships)
      × (r ≡ ok tt)
unfolding redeem_writes add_redemption add_event audit_if audit_in_tx
redeem_writes-memberships now redemption_id event_id audit_id user none item d d' r h =
    (ground arith, ground arith)
redeem_writes-memberships now redemption_id event_id audit_id user (some a) item d d' r h =
    (ground arith, ground arith)

membership-found :
    (later : ℕ) (user : String) (d : Tables) (m : Membership)
    → find_membership user d ≡ some m
    → membership later user d ≡ (ok m, d)
unfolding membership
membership-found later user d m e = ground arith

membership-keeps :
    (later : ℕ) (user : String) (d : Tables)
    → ((membership later user d).1.redeem_codes ≡ d.redeem_codes)
      × ((membership later user d).1.redemptions ≡ d.redemptions)
unfolding membership
membership-keeps later user d = (ground arith, ground arith)

module _ (now later : ℕ) (redemption_id event_id audit_id user code : String)
    (audit : Option AuditContext) (d d' : Tables) (m : Membership)
    (run : redeem now later redemption_id event_id audit_id user code audit d ≡ (ok m, d')) where
  -- The parts of a redemption that has succeeded.
  redeem-parts :
      (item : RedeemCode) × (redeem_checks now user code d ≡ (ok item, d))
      × (d₁ : Tables) × (redeem_writes now redemption_id event_id audit_id user audit item d
          ≡ (ok (ok tt), d₁))
      × (membership later user d₁ ≡ (ok m, d'))
  unfolding redeem
  redeem-parts =
      let writes = redeem_writes now redemption_id event_id audit_id user audit in
      let body = redeem_checks now user code >>= writes in
      let outer = >>=-eq-ok (transaction body) (λ _. membership later user) d d' m run in
      let inner =
        >>=-eq-ok (redeem_checks now user code) writes d outer.1 (ok outer.0)
          (transaction-eq-ok body d outer.1 outer.0 outer.2) in
      let same = (redeem_checks-eq-ok now user code d inner.1 inner.0 inner.2).0 in
      (
        inner.0,
        inner.2 ∙ ap (λ t. (ok inner.0, t)) same,
        outer.1,
        ap (λ t. writes inner.0 t) (sym same) ∙ inner.3,
        outer.3,
      )

  -- A redemption gives the user the tier REDEEMED, from the later of now and the end of the present
  -- membership on for the days of the code; the code is the one that the user has typed, but for the
  -- case and the blanks around it.
  pub redeem-eq-ok :
      (item : RedeemCode) × (find_code (to_upper (trim_space code)) d ≡ some item)
      × (m ≡ redeemed_until now user (max now (expiry user d) + item.grant_days * 24 * 3600000))
      × (find_membership user d' ≡ some m)
  redeem-eq-ok =
      let (item, checks, d₁, writes, read) = redeem-parts in
      let checked = redeem_checks-eq-ok now user code d d item checks in
      let row = redeemed_until now user (extended now (expiry user d) item.grant_days) in
      let put =
        redeem_writes-memberships now redemption_id event_id audit_id user audit item d d₁ (ok tt)
          writes in
      let found : find_membership user d₁ ≡ some row =
        ap (select_one (λ m. m.user_id == user)) put.0 ∙ find_membership-put row d in
      let same = membership-found later user d₁ row found in
      (item, ap (λ k. find_code k d) (sym checked.4) ∙ checked.1, ground arith, ground arith)

-- The ways in which a code refuses a user who has redeemed it.
abbrev pub Refused : Result Membership × Tables → Tables → Type 0
Refused r d = (r ≡ (err conflict, d)) ⊎ (r ≡ (err forbidden, d)) ⊎ (r ≡ (err unavailable, d))

redeem-Refused :
    (now later : ℕ) (redemption_id event_id audit_id user code : String)
    (audit : Option AuditContext) (d : Tables) (item : RedeemCode)
    → find_code (to_upper (trim_space code)) d ≡ some item
    → 1 ≤ count_where (λ r. r.code == item.code && r.user_id == user) d.redemptions
    → Refused (redeem now later redemption_id event_id audit_id user code audit d) d
unfolding redeem redeem_checks
redeem-Refused now later redemption_id event_id audit_id user code audit d item e many =
    ground arith

-- A user redeems a code once: after it, a redemption of the same code by the same user is refused as a
-- conflict, or because the code has run out, was revoked, or is used up, and changes nothing.
pub redeem_once :
    (now later : ℕ) (redemption_id event_id audit_id user code : String)
    (audit : Option AuditContext) (d d' : Tables) (m : Membership) (now' later' : ℕ)
    (redemption' event' audit_id' code' : String) (audit' : Option AuditContext)
    → redeem now later redemption_id event_id audit_id user code audit d ≡ (ok m, d')
    → to_upper (trim_space code') ≡ to_upper (trim_space code)
    → Refused (redeem now' later' redemption' event' audit_id' user code' audit' d') d'
redeem_once now later redemption_id event_id audit_id user code audit d d' m now' later' redemption'
      event' audit_id' code' audit' run same =
    let (item, checks, d₁, writes, read) =
      redeem-parts now later redemption_id event_id audit_id user code audit d d' m run in
    let checked = redeem_checks-eq-ok now user code d d item checks in
    let written =
      redeem_writes-eq-ok now redemption_id event_id audit_id user audit item d d₁ (ok tt) writes in
    let kept = membership-keeps later user d₁ in
    let codes : d'.redeem_codes ≡ (count_redemption item.code d).redeem_codes =
      ap (λ r. r.1.redeem_codes) (sym read) ∙ kept.0 ∙ written.0 in
    let redemptions : d'.redemptions
        ≡ d.redemptions ++ new_redemption now redemption_id user item ∷ [] =
      ap (λ r. r.1.redemptions) (sym read) ∙ kept.1 ∙ written.1 in
    let counted : RedeemCode =
      updated (λ c. c.code == item.code && ltb c.current_redemptions c.max_redemptions)
        (λ c. record c { current_redemptions = c.current_redemptions + 1 }) item in
    redeem-Refused now' later' redemption' event' audit_id' user code' audit' d' counted
      (rw (same, ← checked.4)
        (ap (select_one (λ c. c.code == item.code)) codes
          ∙ find_code-counted item.code item.code d
          ∙ ap
              (λ o. elim o [
                | none ↦ none
                | some c ↦ some (
                    updated
                      (λ c. c.code == item.code && ltb c.current_redemptions c.max_redemptions)
                      (λ c. record c { current_redemptions = c.current_redemptions + 1 }) c)
              ])
              checked.1))
      (rw redemptions (
        ground (
          arith,
          count_where-append (λ r. r.code == counted.code && r.user_id == user) d.redemptions
              (new_redemption now redemption_id user item ∷ []),
          eq_iff item.code item.code,
          eq_iff user user,
        )))
