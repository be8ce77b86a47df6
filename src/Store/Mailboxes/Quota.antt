-- ===== src/Store/Mailboxes/Quota.antt =====
-- A mailbox sends no more mails on a day than its quota allows.
use classing_backend.Base.{
  ℕ, ◌+◌, ◌-◌, ◌≤◌, ◌<◌, ◌≡◌, refl, ◌∙◌, ap, sym, subst, String, Bool, true, false, not, ◌&&◌,
  Option, none, some, List, [], ◌∷◌, ◌++◌, arith, ltb, if◌then◌else◌, ◌==◌, nat_eq, string_eq, inl,
  inr, Bool-cases, Option-cases, beq_refl, eq_of_beq,
}
use text.Mathlib.TextEquality.{eq_iff}
use classing_backend.Base.Table.{
  select_one, count_where, update_where, select_one-update_where, select_one_passes,
  select_one-update_other, count_where_apart, count_where-update_same, updated, select_one_counted,
}
use classing_backend.Store.Core.{Error, Result, ok, err, Result-cases}
use classing_backend.Store.ContentRows.{Mailbox, Contents}
use classing_backend.Store.Mailboxes.{
  start_day, pick_mailbox, can_be_used, used_once_more, acquire_mailbox_excluding,
}

abbrev pub find_mailbox : String → Contents → Option Mailbox
find_mailbox id d = select_one (λ m. m.id == id) d.mailboxes

-- The mails that a mailbox has sent on a day.
abbrev pub used_on : String → String → Contents → ℕ
used_on date id d = elim (find_mailbox id d) [
  | none ↦ 0
  | some m ↦ if m.usage_date == date then m.used_today else 0
]

abbrev pub quota_of : String → Contents → ℕ
quota_of id d = elim (find_mailbox id d) [ none ↦ 0 | some m ↦ m.daily_quota ]

-- The primary key of mailboxes.
abbrev pub OneMailbox : Contents → Type 0
OneMailbox d = (id : String) → count_where (λ m. m.id == id) d.mailboxes ≤ 1

-- What a successful acquisition has found, and the rows that it leaves.
pub record Acquired (now : ℕ) (date : String) (excluded : String → Bool) (m : Mailbox)
    (d d' : Contents) : Type 0 where
  pub item : Mailbox
  pub picked : pick_mailbox excluded (start_day now date d) ≡ some item
  pub returned : m ≡ record item { used_today = item.used_today + 1 }
  pub one : count_where (can_be_used item.id) (start_day now date d).mailboxes ≡ 1
  pub rows :
      d'.mailboxes
      ≡ update_where (can_be_used item.id) (used_once_more now) (start_day now date d).mailboxes

pub acquire-Acquired :
    (now : ℕ) (date : String) (excluded : String → Bool) (m : Mailbox) (d d' : Contents)
    → acquire_mailbox_excluding now date excluded d ≡ (ok m, d')
    → Acquired now date excluded m d d'
unfolding acquire_mailbox_excluding
acquire-Acquired now date excluded m d d' run =
    elim (Option-cases (pick_mailbox excluded (start_day now date d))) [
      | inl e ↦ absurd (ground arith)
      | inr (item, e) ↦ record {
        item = item;
        picked = e;
        returned = ground arith;
        one = ground arith;
        rows = ground arith;
      }
    ]

-- A failure changes nothing.
acquire-err :
    (now : ℕ) (date : String) (excluded : String → Bool) (e : Error) (d d' : Contents)
    → acquire_mailbox_excluding now date excluded d ≡ (err e, d')
    → d' ≡ d
unfolding acquire_mailbox_excluding
acquire-err now date excluded e d d' run = ground arith

-- The row of a mailbox on a day: what it has used and may use.
abbrev IsAt : String → String → ℕ → ℕ → List Mailbox → Type 0
IsAt date id used quota rows =
    (r : Mailbox) × (select_one (λ m. m.id == id) rows ≡ some r)
    × (r.usage_date ≡ date)
    × (r.used_today ≡ used)
    × (r.daily_quota ≡ quota)

module _ (now : ℕ) (date id : String) where
  start_day-IsAt :
      (d : Contents) (r : Mailbox)
      → find_mailbox id d ≡ some r
      → IsAt date id (used_on date id d) (quota_of id d) (start_day now date d).mailboxes
  start_day-IsAt d r e = elim (Bool-cases (r.usage_date == date)) [
    | inl same ↦
        (r, ground (arith, found), eq_of_beq r.usage_date date same, ground arith, ground arith)
    | inr other ↦ (
      record r { used_today = 0; usage_date = date; updated_at = now },
      ground (arith, found),
      refl,
      ground arith,
      ground arith,
    )
  ]
    where
      q : Mailbox → Bool
      q m = not (m.usage_date == date)

      f : Mailbox → Mailbox
      f m = record m { used_today = 0; usage_date = date; updated_at = now }

      found : select_one (λ m. m.id == id) (start_day now date d).mailboxes ≡ some (updated q f r)
      found = rw (select_one-update_where (λ m. m.id == id) q f d.mailboxes (λ m. refl), e) refl

  -- An acquisition of another mailbox leaves the row.
  acquire-IsAt_other :
      (k : String) (used quota : ℕ) (rows : List Mailbox)
      → (k == id) ≡ false
      → IsAt date id used quota rows
      → IsAt date id used quota (update_where (can_be_used k) (used_once_more now) rows)
  acquire-IsAt_other k used quota rows h (r, e, day, u, q) = (
    r,
    select_one-update_other (λ m. m.id == id) (can_be_used k) (used_once_more now) rows (λ m. refl)
          (λ m g. ground (arith, eq_iff m.id k, eq_iff m.id id, eq_iff k id))
        ∙ e,
    day,
    u,
    q,
  )

  -- An acquisition of the mailbox finds quota left, and uses one more.
  acquire-IsAt_same :
      (used quota : ℕ) (rows : List Mailbox)
      → count_where (λ m. m.id == id) rows ≤ 1
      → count_where (can_be_used id) rows ≡ 1
      → IsAt date id used quota rows
      → (used < quota)
        × IsAt date id (used + 1) quota (update_where (can_be_used id) (used_once_more now) rows)
  acquire-IsAt_same used quota rows one affected (r, e, day, u, q) =
      let free : ltb r.used_today r.daily_quota ≡ true =
        elim (Bool-cases (ltb r.used_today r.daily_quota)) [
          | inl t ↦ t
          | inr f ↦ absurd (
              omega (
                arith,
                one,
                affected,
                select_one_counted (λ m. m.id == id)
                    (λ m. m.id == id && not (ltb m.used_today m.daily_quota)) rows r e
                    (ground (arith, select_one_passes (λ m. m.id == id) rows r e)),
                count_where_apart (λ m. m.id == id && not (ltb m.used_today m.daily_quota))
                    (can_be_used id) (λ m. m.id == id) rows (λ m h. ground arith)
                    (λ m h. ground arith) (λ m h. ground arith),
              ))
        ] in
      (
        ground arith,
        (
          used_once_more now r,
          ground (
            arith,
            select_one-update_where (λ m. m.id == id) (can_be_used id) (used_once_more now) rows
                (λ m. refl),
            select_one_passes (λ m. m.id == id) rows r e,
          ),
          day,
          ground arith,
          q,
        ),
      )

  -- What the row says of the mailbox.
  IsAt-found :
      (used quota : ℕ) (d : Contents)
      → IsAt date id used quota d.mailboxes
      → (used_on date id d ≡ used) × (quota_of id d ≡ quota)
  IsAt-found used quota d (r, e, day, u, q) = (ground (arith, beq_refl date), ground arith)

  start_day-OneMailbox :
      (d : Contents)
      → OneMailbox d
      → count_where (λ m. m.id == id) (start_day now date d).mailboxes ≤ 1
  start_day-OneMailbox d one = omega (
    arith,
    one id,
    count_where-update_same (λ m. m.id == id) (λ m. not (m.usage_date == date))
        (λ m. record m { used_today = 0; usage_date = date; updated_at = now }) d.mailboxes
        (λ m. ground arith),
  )

  acquire-OneMailbox :
      (excluded : String → Bool) (m : Mailbox) (d d' : Contents)
      → Acquired now date excluded m d d'
      → OneMailbox d
      → count_where (λ m. m.id == id) d'.mailboxes ≤ 1
  acquire-OneMailbox excluded m d d' a one = omega (
    arith,
    start_day-OneMailbox d one,
    ap (count_where (λ m. m.id == id)) a.rows,
    count_where-update_same (λ m. m.id == id) (can_be_used a.item.id) (used_once_more now)
        (start_day now date d).mailboxes (λ m. ground arith),
  )

-- What an acquisition means for one mailbox.
abbrev Counts : String → String → Mailbox → Contents → Contents → Type 0
Counts date id m d d' =
    (quota_of id d' ≡ quota_of id d)
    × (used_on date id d' ≡ used_on date id d + (if m.id == id then 1 else 0))
    × ((m.id == id) ≡ true → used_on date id d < quota_of id d)

acquire-Counts :
    (now : ℕ) (date : String) (excluded : String → Bool) (id : String) (m r : Mailbox)
    (d d' : Contents)
    → Acquired now date excluded m d d'
    → OneMailbox d
    → find_mailbox id d ≡ some r
    → ((r' : Mailbox) × (find_mailbox id d' ≡ some r')) × Counts date id m d d'
acquire-Counts now date excluded id m r d d' a one e =
    let start = start_day-IsAt now date id d r e in
    let rows = (start_day now date d).mailboxes in
    let m_id : m.id ≡ a.item.id = ap (λ (n : Mailbox). n.id) a.returned in
    elim (Bool-cases (a.item.id == id)) [
      | inl same ↦
          let k = eq_of_beq a.item.id id same in
          let affected = subst (λ k. count_where (can_be_used k) rows ≡ 1) k a.one in
          let (free, at) =
            acquire-IsAt_same now date id (used_on date id d) (quota_of id d) rows
              (start_day-OneMailbox now date id d one) affected start in
          let after =
            subst (λ k. d'.mailboxes ≡ update_where (can_be_used k) (used_once_more now) rows) k
              a.rows in
          let at' = subst (IsAt date id (used_on date id d + 1) (quota_of id d)) (sym after) at in
          let f = IsAt-found now date id (used_on date id d + 1) (quota_of id d) d' at' in
          ((at'.0, at'.1), (f.1, ground (arith, f.0, m_id), λ h. free))
      | inr other ↦
          let at =
            acquire-IsAt_other now date id a.item.id (used_on date id d) (quota_of id d) rows other
              start in
          let at' = subst (IsAt date id (used_on date id d) (quota_of id d)) (sym a.rows) at in
          let f = IsAt-found now date id (used_on date id d) (quota_of id d) d' at' in
          ((at'.0, at'.1), (f.1, ground (arith, f.0, m_id), λ h. ground (arith, m_id)))
    ]

abbrev pub acquired_id : Result Mailbox → List String
acquired_id (ok m) = m.id ∷ []
acquired_id (err e) = []

-- The ids of the mailboxes that the calls get on one day, at any times and with any exclusions.
unfoldable pub acquired_ids : String → List (ℕ × (String → Bool)) → Contents → List String
acquired_ids date [] d = []
acquired_ids date ((now, excluded) ∷ calls) d =
    let (r, d') = acquire_mailbox_excluding now date excluded d in
    acquired_id r ++ acquired_ids date calls d'

-- A mailbox is handed out within its quota: where no two mailboxes have one id, any calls of one day
-- get a mailbox no more often than what its quota leaves after the mails that it has sent that day.
pub acquired-le-quota :
    (date id : String) (calls : List (ℕ × (String → Bool))) (d : Contents) (r : Mailbox)
    → OneMailbox d
    → find_mailbox id d ≡ some r
    → count_where (λ k. k == id) (acquired_ids date calls d) ≤ quota_of id d - used_on date id d
unfolding acquired_ids
acquired-le-quota date id [] d r one e = omega arith
acquired-le-quota date id ((now, excluded) ∷ calls) d r one e =
    let out = acquire_mailbox_excluding now date excluded d in
    elim (Result-cases out.0) [
      | inl (m, f) ↦
          let a = acquire-Acquired now date excluded m d out.1 (ground arith) in
          let c = acquire-Counts now date excluded id m r d out.1 a one e in
          let rest =
            acquired-le-quota date id calls out.1 c.0.0
              (λ i. acquire-OneMailbox now date i excluded m d out.1 a one) c.0.1 in
          ground (arith, c.1.0, c.1.1, c.1.2, rest)
      | inr (e', f) ↦
          let same = acquire-err now date excluded e' d out.1 (ground arith) in
          let rest = acquired-le-quota date id calls d r one e in
          ground (
            arith,
            f,
            ap (λ (k : Contents). count_where (λ i. i == id) (acquired_ids date calls k)) same,
            rest,
          )
    ]
