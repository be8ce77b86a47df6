-- ===== src/Store/Jobs/Claims.antt =====
-- What a claim takes, and when it takes a job.
use classing_backend.Base.{
  ℕ, ◌≤◌, ◌≡◌, ◌∙◌, ap, sym, String, Bool, true, false, ◌&&◌, ◌||◌, some, List, arith, ltb, ◌==◌,
  nat_eq, string_eq, inl, inr, Bool-cases, Option-cases, beq_refl,
}
use mathlib.Core.List.{Memᴰ}
use classing_backend.Base.Everywhere.{All-selected, All-select_where, All-Memᴰ}
use classing_backend.Base.Order.{
  head?-order_by, head?-order_by_all, head?-order_by_passes, head?-order_by-none,
  head?-order_by_counted,
}
use classing_backend.Base.Table.{
  select_one, select_where, count_where, update_where, count_where-select_where,
  count_where-update_where, count_where_none, count_where_mono, select_one-none, updated,
}
use classing_backend.Store.Core.{Error, ok, err}
use classing_backend.Store.Rows.{User}
use classing_backend.Store.ContentRows.{BriefingJob, Contents}
use classing_backend.Store.Briefings.{is_waiting}
use classing_backend.Store.Jobs.{
  ClaimedJob, has_account, is_claimable, next_job, processing, claim_briefing_job,
}

-- The job that is next can be claimed, and none that can be is due earlier.
pub next_job-least :
    (now : ℕ) (d : Contents) (item : BriefingJob)
    → next_job now d ≡ some item
    → (is_claimable now d.accounts.users item ≡ true)
      × (count_where
            (λ j. is_claimable now d.accounts.users j && ltb j.scheduled_at item.scheduled_at)
            d.jobs
          ≡ 0)
next_job-least now d item e =
    let waiting = select_where (is_claimable now d.accounts.users) d.jobs in
    (
      head?-order_by_passes (λ j k. ltb j.scheduled_at k.scheduled_at)
          (is_claimable now d.accounts.users) waiting item
          (All-selected (is_claimable now d.accounts.users) d.jobs) e,
      sym (
            count_where-select_where (λ j. ltb j.scheduled_at item.scheduled_at)
              (is_claimable now d.accounts.users) d.jobs)
          ∙ head?-order_by (λ j k. ltb j.scheduled_at k.scheduled_at) (λ j k h. ground arith)
              (λ j k l g h. ground arith) waiting item e,
    )

-- What a successful claim has found, and the row that it leaves.
pub record Claimed (now : ℕ) (c : ClaimedJob) (d d' : Contents) : Type 0 where
  pub item : BriefingJob
  pub found : next_job now d ≡ some item
  pub user : User
  pub owner : select_one (λ u. u.id == item.user_id) d.accounts.users ≡ some user
  pub returned : c ≡ record {
    job = record item { status = "PROCESSING" };
    email = user.email;
    username = user.username;
  }
  pub one : count_where (λ j. j.id == item.id && is_waiting j) d.jobs ≡ 1
  pub accounts : d'.accounts ≡ d.accounts
  pub jobs : d'.jobs ≡ update_where (λ j. j.id == item.id && is_waiting j) (processing now) d.jobs

pub claim-Claimed :
    (now : ℕ) (c : ClaimedJob) (d d' : Contents)
    → claim_briefing_job now d ≡ (ok c, d')
    → Claimed now c d d'
unfolding claim_briefing_job
claim-Claimed now c d d' run = elim (Option-cases (next_job now d)) [
  | inl e ↦ absurd (ground arith)
  | inr (item, e) ↦ elim (Option-cases (select_one (λ u. u.id == item.user_id) d.accounts.users)) [
    | inl o ↦ absurd (ground arith)
    | inr (user, o) ↦ record {
      item = item;
      found = e;
      user = user;
      owner = o;
      returned = ground arith;
      accounts = ground arith;
      one = ground arith;
      jobs = ground arith;
    }
  ]
]

-- A claim that fails changes nothing.
pub claim-err :
    (now : ℕ) (e : Error) (d d' : Contents) → claim_briefing_job now d ≡ (err e, d') → d' ≡ d
unfolding claim_briefing_job
claim-err now e d d' run = ground arith

pub processing_not_waiting :
    (now : ℕ) (id : String) (j : BriefingJob)
    → let j' = updated (λ j. j.id == id && is_waiting j) (processing now) j in
      (j'.id == id && is_waiting j') ≡ false
processing_not_waiting now id j = elim (Bool-cases (j.id == id && is_waiting j)) [
  | inl e ↦ rw e (ground arith)
  | inr e ↦ rw e e
]

-- Whether the job has an account and waits.
abbrev pub awaits : List User → BriefingJob → Bool
awaits users j =
    ltb 0 (count_where (λ u. u.id == j.user_id) users)
    && (j.status == "PENDING" || j.status == "RETRY")

-- A claim takes the waiting job that has been due for longest: the job is a row of the queue, has the
-- status PENDING or RETRY and is due, no waiting job with an account was to be sent earlier, the job is
-- returned as being processed, otherwise as it stands in the row and with the address and the name of
-- its account, and no row with its id is left waiting.
pub claim-eq-ok :
    (now : ℕ) (c : ClaimedJob) (d d' : Contents)
    → claim_briefing_job now d ≡ (ok c, d')
    → (item : BriefingJob) × (user : User) × Memᴰ item d.jobs
      × ((item.status == "PENDING" || item.status == "RETRY") ≡ true)
      × (item.scheduled_at ≤ now)
      × (count_where (λ j. awaits d.accounts.users j && ltb j.scheduled_at item.scheduled_at) d.jobs
          ≡ 0)
      × (select_one (λ u. u.id == item.user_id) d.accounts.users ≡ some user)
      × (c ≡ record {
        job = record item { status = "PROCESSING" };
        email = user.email;
        username = user.username;
      })
      × (count_where
            (λ j. j.id == item.id && (j.status == "PENDING" || j.status == "RETRY"))
            d'.jobs
          ≡ 0)
claim-eq-ok now c d d' run =
    let r = claim-Claimed now c d d' run in
    let users = d.accounts.users in
    let least = next_job-least now d r.item r.found in
    let waiting = select_where (is_claimable now users) d.jobs in
    (
      r.item,
      r.user,
      head?-order_by_all (λ j k. ltb j.scheduled_at k.scheduled_at) (λ j. Memᴰ j d.jobs) waiting
          r.item
          (All-select_where (λ j. Memᴰ j d.jobs) (is_claimable now users) d.jobs (All-Memᴰ d.jobs))
          r.found,
      ground (arith, least.0),
      ground (arith, least.0),
      omega (
        arith,
        least.1,
        count_where_mono (λ j. awaits users j && ltb j.scheduled_at r.item.scheduled_at)
            (λ j. is_claimable now users j && ltb j.scheduled_at r.item.scheduled_at) d.jobs
            (λ j h. ground (arith, least.0)),
      ),
      r.owner,
      r.returned,
      ap (count_where (λ j. j.id == r.item.id && is_waiting j)) r.jobs
          ∙ (count_where-update_where (λ j. j.id == r.item.id && is_waiting j)
                (λ j. j.id == r.item.id && is_waiting j) (processing now) d.jobs
              ∙ count_where_none _ d.jobs (processing_not_waiting now r.item.id)),
    )

-- The primary key of briefing_jobs.
abbrev pub OneJob : Contents → Type 0
OneJob d = (id : String) → count_where (λ j. j.id == id) d.jobs ≤ 1

account_of :
    (users : List User) (j : BriefingJob)
    → has_account users j ≡ true
    → (u : User) × (select_one (λ u. u.id == j.user_id) users ≡ some u)
account_of users j h = elim (Option-cases (select_one (λ u. u.id == j.user_id) users)) [
  | inl e ↦ absurd (ground (arith, select_one-none (λ u. u.id == j.user_id) users e))
  | inr (u, e) ↦ (u, e)
]

next-one :
    (now : ℕ) (d : Contents) (item : BriefingJob)
    → next_job now d ≡ some item
    → OneJob d
    → count_where (λ j. j.id == item.id && is_waiting j) d.jobs ≡ 1
next-one now d item e one =
    let users = d.accounts.users in
    let p = λ (j : BriefingJob). j.id == item.id && is_waiting j in
    let claimable = (next_job-least now d item e).0 in
    omega (
      arith,
      one item.id,
      count_where_mono p (λ j. j.id == item.id) d.jobs (λ j h. ground arith),
      count_where_mono (λ j. is_claimable now users j && p j) p d.jobs (λ j h. ground arith),
      count_where-select_where p (is_claimable now users) d.jobs,
      head?-order_by_counted (λ j k. ltb j.scheduled_at k.scheduled_at) p
          (select_where (is_claimable now users) d.jobs) item e (ground (arith, beq_refl item.id)),
    )

-- While a job can be claimed, and no two jobs have one id, a claim returns a job.
pub claim_succeeds :
    (now : ℕ) (d : Contents)
    → OneJob d
    → 1 ≤ count_where (is_claimable now d.accounts.users) d.jobs
    → (c : ClaimedJob) × (d' : Contents) × (claim_briefing_job now d ≡ (ok c, d'))
unfolding claim_briefing_job
claim_succeeds now d one h = elim (Option-cases (next_job now d)) [
  | inl e ↦ absurd (
      omega (
        arith,
        head?-order_by-none (λ j k. ltb j.scheduled_at k.scheduled_at) (λ j. true)
            (select_where (is_claimable now d.accounts.users) d.jobs) e,
        count_where-select_where (λ j. true) (is_claimable now d.accounts.users) d.jobs,
        count_where_mono (is_claimable now d.accounts.users)
            (λ j. is_claimable now d.accounts.users j && true) d.jobs (λ j h. ground arith),
      ))
  | inr (item, e) ↦
      let (user, o) =
        account_of d.accounts.users item (ground (arith, next_job-least now d item e)) in
      (
        record {
          job = record item { status = "PROCESSING" };
          email = user.email;
          username = user.username;
        },
        record d {
          jobs = update_where (λ j. j.id == item.id && is_waiting j) (processing now) d.jobs;
        },
        ground (arith, next-one now d item e one),
      )
]
