-- ===== src/Store/Briefings/Cancelled.antt =====
-- A user who turns the briefing off gets no more mail of it.
use classing_backend.Base.{
  ℕ, ◌≤◌, ◌≡◌, refl, ◌∙◌, String, Bool, false, ◌&&◌, ◌||◌, List, [], ◌∷◌, arith, ltb, if◌then◌else◌,
  ◌==◌, nat_eq, string_eq, inl, inr, Bool-cases, Option-cases,
}
use classing_backend.Base.Text.{trim_space, to_upper}
use classing_backend.Base.Table.{
  select_one, count_where, count_where-append, count_where-update_where, count_where_none,
  count_where_mono, count_where-update_none, updated,
}
use classing_backend.Store.Core.{ok}
use classing_backend.Store.Rows.{User}
use classing_backend.Store.ContentRows.{BriefingSubscription, BriefingJob, Contents}
use classing_backend.Store.Briefings.{
  briefing, due_subscription, join_accounts, active_briefing_subscriptions, put_subscription,
  is_cancelled_with, cancelled, cancel_jobs, upsert_briefing,
}

abbrev is_on_for : String → BriefingSubscription → Bool
is_on_for user b = b.user_id == user && b.enabled == 1

due-le-on :
    (users : List User) (user : String) (subscriptions : List BriefingSubscription)
    → count_where (λ s. s.subscription.user_id == user) (join_accounts users subscriptions)
      ≤ count_where (is_on_for user) subscriptions
due-le-on users user [] = omega arith
due-le-on users user (b ∷ bs) = omega (
  arith,
  one,
  count_where-append (λ s. s.subscription.user_id == user) (due_subscription users b)
      (join_accounts users bs),
  due-le-on users user bs,
)
  where
    one :
        count_where (λ s. s.subscription.user_id == user) (due_subscription users b)
        ≤ (if is_on_for user b then 1 else 0)
    one = elim (Option-cases (select_one (λ u. u.id == b.user_id) users)) [
      | inl e ↦ ground arith
      | inr (u, e) ↦ ground arith
    ]

cancelled-not :
    (now : ℕ) (user : String) (j : BriefingJob)
    → is_cancelled_with user (updated (is_cancelled_with user) (cancelled now) j) ≡ false
cancelled-not now user j = elim (Bool-cases (is_cancelled_with user j)) [
  | inl e ↦ rw e (ground arith)
  | inr e ↦ rw e e
]

-- What ON CONFLICT makes of the row that is there.
written_over : BriefingSubscription → BriefingSubscription → BriefingSubscription
written_over row b = record b {
  enabled = row.enabled;
  channel = row.channel;
  time = row.time;
  timezone = row.timezone;
  updated_at = row.updated_at;
}

written_over_off :
    (row b : BriefingSubscription)
    → row.enabled ≡ 0
    → is_on_for row.user_id (updated (λ b. b.user_id == row.user_id) (written_over row) b) ≡ false
unfolding written_over
written_over_off row b off = elim (Bool-cases (b.user_id == row.user_id)) [
  | inl e ↦ rw e (ground arith)
  | inr e ↦ rw e (ground arith)
]

put_off :
    (row : BriefingSubscription) (d : Contents)
    → row.enabled ≡ 0
    → count_where (is_on_for row.user_id) (put_subscription row d).subscriptions ≡ 0
unfolding written_over
put_off row d off =
    let p = λ (b : BriefingSubscription). b.user_id == row.user_id in
    elim (Bool-cases (ltb 0 (count_where p d.subscriptions))) [
      | inl e ↦ rw e (
          count_where-update_none (is_on_for row.user_id) p (written_over row) d.subscriptions
            (λ b. written_over_off row b off))
      | inr e ↦
          let none_there : count_where p d.subscriptions ≡ 0 = ground arith in
          rw e (
            ground (
              arith,
              count_where-append (is_on_for row.user_id) d.subscriptions (row ∷ []),
              count_where_mono (is_on_for row.user_id) p d.subscriptions (λ b h. ground arith),
              none_there,
            ))
    ]

-- A mail of the briefing, or test mail, of the user that waits to be sent.
abbrev pub waits_for : String → BriefingJob → Bool
waits_for user j =
    j.user_id == user
    && (j.status == "PENDING" || j.status == "RETRY")
    && (j.channel == "EMAIL" || j.channel == "EMAIL_TEST")

-- Turning the briefing off stops it: after a request that turns it off has succeeded, the user has no
-- mail of the briefing, or test mail, that waits to be sent, and the scheduler is given no subscription
-- of the user.
pub disable_stops :
    (known_zone : String → Bool) (now : ℕ) (user channel delivery_time timezone : String)
    (b : BriefingSubscription) (d d' : Contents)
    → upsert_briefing known_zone now user false channel delivery_time timezone d ≡ (ok b, d')
    → (count_where (waits_for user) d'.jobs ≡ 0)
      × (count_where (λ s. s.subscription.user_id == user) (active_briefing_subscriptions d') ≡ 0)
unfolding upsert_briefing briefing active_briefing_subscriptions
disable_stops known_zone now user channel delivery_time timezone b d d' run =
    let row : BriefingSubscription = record {
      user_id = user;
      enabled = 0;
      channel = to_upper (trim_space channel);
      time = delivery_time;
      timezone = if timezone == "" then "Asia/Shanghai" else timezone;
      last_scheduled_at = 0;
      updated_at = now;
    } in
    let left = cancel_jobs now user (put_subscription row d) in
    let same : d' ≡ left = ground arith in
    rw same (
      count_where-update_where (is_cancelled_with user) (is_cancelled_with user) (cancelled now)
            d.jobs
          ∙ count_where_none
              (λ j. is_cancelled_with user (updated (is_cancelled_with user) (cancelled now) j))
              d.jobs (cancelled-not now user),
      omega (arith, due-le-on d.accounts.users user left.subscriptions, put_off row d refl),
    )
