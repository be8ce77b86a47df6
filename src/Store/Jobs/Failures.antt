-- ===== src/Store/Jobs/Failures.antt =====
-- A job that cannot be sent is tried five times, and then no more.
use classing_backend.Base.{
  ℕ, ◌+◌, ◌-◌, ◌*◌, ◌≤◌, ◌≡◌, ◌∙◌, ap, ◌⊎◌, max, String, Bool, true, not, ◌&&◌, ◌||◌, some, List,
  [], ◌∷◌, arith, ltb, leb, if◌then◌else◌, ◌==◌, nat_eq, string_eq, inl, inr, Bool-cases, beq_refl,
}
use classing_backend.Base.Table.{
  select_where, count_where, update_where, count_where_mono, count_where_apart,
  count_where-update_same, count_where-select_where,
}
use classing_backend.Base.Order.{head?-order_by_counted}
use classing_backend.Store.Core.{ok, err, Result-cases}
use classing_backend.Store.ContentRows.{BriefingJob, Contents}
use classing_backend.Store.Briefings.{is_waiting}
use classing_backend.Store.Jobs.{
  ClaimedJob, is_claimable, next_job, processing, claim_briefing_job, fail_briefing_job, failed,
  prefix_error,
}
use classing_backend.Store.Jobs.Claims.{claim-Claimed, claim-err, next_job-least, OneJob}

-- A claim, and the failure of the job that it takes; and the number of jobs that it takes.
unfoldable pub attempt : String → ℕ → Contents → Contents × ℕ
attempt message now d =
    let (r, d') = claim_briefing_job now d in
    elim r [
      | ok c ↦ ((fail_briefing_job now c.job.id message c.job.retry_count d').1, 1)
      | err e ↦ (d', 0)
    ]

-- The attempts that are made at the times given.
unfoldable pub attempts : String → List ℕ → Contents → ℕ
unfolding attempt
attempts message [] d = 0
attempts message (now ∷ times) d =
    let (d', n) = attempt message now d in n + attempts message times d'

-- The attempts that are left to a job.
abbrev left_to : BriefingJob → ℕ
left_to j = if is_waiting j then max 1 (5 - j.retry_count) else 0

abbrev all_left : List BriefingJob → ℕ
all_left [] = 0
all_left (j ∷ jobs) = left_to j + all_left jobs

-- Whether the row is the one that is tried, with `r` failures, or has another id.
abbrev is_known : String → ℕ → BriefingJob → Bool
is_known k r j = not (j.id == k) || (is_waiting j && j.retry_count == r)

abbrev tried : ℕ → String → String → ℕ → List BriefingJob → List BriefingJob
tried now message k r jobs =
    update_where (λ j. j.id == k) (failed now (prefix_error message 500) r)
      (update_where (λ j. j.id == k && is_waiting j) (processing now) jobs)

left_to-tried :
    (now : ℕ) (message k : String) (r : ℕ) (j : BriefingJob)
    → is_known k r j ≡ true
    → all_left (tried now message k r (j ∷ [])) + (if j.id == k && is_waiting j then 1 else 0)
      ≤ left_to j
left_to-tried now message k r j h = elim (Bool-cases (j.id == k)) [
  | inl e ↦
      let w : is_waiting j ≡ true = ground arith in
      rw (e, w, e)
        (elim (Bool-cases (leb 4 r)) [
          | inl last ↦ rw last (ground arith)
          | inr more ↦ rw more (ground arith)
        ])
  | inr e ↦ rw (e, e) (ground arith)
]

all_left-tried :
    (now : ℕ) (message k : String) (r : ℕ) (jobs : List BriefingJob)
    → count_where (λ j. not (is_known k r j)) jobs ≡ 0
    → all_left (tried now message k r jobs) + count_where (λ j. j.id == k && is_waiting j) jobs
      ≤ all_left jobs
all_left-tried now message k r [] h = omega arith
all_left-tried now message k r (j ∷ jobs) h =
    let known : is_known k r j ≡ true = ground arith in
    let rest : count_where (λ j. not (is_known k r j)) jobs ≡ 0 = ground arith in
    omega (arith, left_to-tried now message k r j known, all_left-tried now message k r jobs rest)

-- All rows but the one that is next are known to have another id.
next-known :
    (now : ℕ) (d : Contents) (item : BriefingJob)
    → next_job now d ≡ some item
    → OneJob d
    → count_where (λ j. not (is_known item.id item.retry_count j)) d.jobs ≡ 0
next-known now d item e one =
    let users = d.accounts.users in
    let k = item.id in
    let p = λ (j : BriefingJob). j.id == k && is_waiting j && j.retry_count == item.retry_count in
    let claimable = (next_job-least now d item e).0 in
    omega (
      arith,
      one k,
      head?-order_by_counted (λ j k. ltb j.scheduled_at k.scheduled_at) p
          (select_where (is_claimable now users) d.jobs) item e (ground (arith, beq_refl k)),
      count_where-select_where p (is_claimable now users) d.jobs,
      count_where_mono (λ j. is_claimable now users j && p j) p d.jobs (λ j h. ground arith),
      count_where_apart (λ j. not (is_known k item.retry_count j)) p (λ j. j.id == k) d.jobs
          (λ j h. ground arith) (λ j h. ground arith) (λ j h. ground arith),
    )

-- What an attempt that takes a job has found, and the jobs that it leaves.
record Tried (message : String) (now : ℕ) (d d' : Contents) : Type 0 where
  item : BriefingJob
  found : next_job now d ≡ some item
  taken : count_where (λ j. j.id == item.id && is_waiting j) d.jobs ≡ 1
  jobs : d'.jobs ≡ tried now message item.id item.retry_count d.jobs

-- The rows of a job that fails.
abbrev failed_rows : String → ℕ → BriefingJob → List BriefingJob → List BriefingJob
failed_rows message now job rows =
    update_where (λ j. j.id == job.id) (failed now (prefix_error message 500) job.retry_count) rows

attempt-jobs :
    (message : String) (now : ℕ) (d : Contents) (c : ClaimedJob)
    → (claim_briefing_job now d).0 ≡ ok c
    → (attempt message now d).0.jobs
      ≡ failed_rows message now c.job (claim_briefing_job now d).1.jobs
unfolding attempt fail_briefing_job
attempt-jobs message now d c e = ground arith

attempt-cases :
    (message : String) (now : ℕ) (d : Contents)
    → (attempt message now d ≡ (d, 0))
      ⊎ (((attempt message now d).1 ≡ 1) × Tried message now d (attempt message now d).0)
unfolding attempt
attempt-cases message now d = elim (Result-cases (claim_briefing_job now d).0) [
  | inl (c, e) ↦
      let run : claim_briefing_job now d ≡ (ok c, (claim_briefing_job now d).1) = ground arith in
      let r = claim-Claimed now c d (claim_briefing_job now d).1 run in
      inr (
        ground arith,
        record {
          item = r.item;
          found = r.found;
          taken = r.one;
          jobs =
              attempt-jobs message now d c e
              ∙ (ap (failed_rows message now c.job) r.jobs
                  ∙ ap
                      (λ (c : ClaimedJob). failed_rows message now c.job (
                        update_where (λ j. j.id == r.item.id && is_waiting j) (processing now)
                          d.jobs))
                      r.returned);
        },
      )
  | inr (e, r) ↦
      let same = claim-err now e d (claim_briefing_job now d).1 (ground arith) in inl (ground arith)
]

OneJob-Tried :
    (message : String) (now : ℕ) (d d' : Contents) → Tried message now d d' → OneJob d → OneJob d'
OneJob-Tried message now d d' t one id =
    let k = t.item.id in
    let q = λ (j : BriefingJob). j.id == k && is_waiting j in
    omega (
      arith,
      one id,
      ap (count_where (λ j. j.id == id)) t.jobs,
      count_where-update_same (λ j. j.id == id) (λ j. j.id == k)
          (failed now (prefix_error message 500) t.item.retry_count)
          (update_where q (processing now) d.jobs) (λ j. ground arith),
      count_where-update_same (λ j. j.id == id) q (processing now) d.jobs (λ j. ground arith),
    )

all_left-Tried :
    (message : String) (now : ℕ) (d d' : Contents)
    → Tried message now d d'
    → OneJob d
    → all_left d'.jobs + 1 ≤ all_left d.jobs
all_left-Tried message now d d' t one = omega (
  arith,
  ap all_left t.jobs,
  t.taken,
  all_left-tried now message t.item.id t.item.retry_count d.jobs
      (next-known now d t.item t.found one),
)

attempts-le-left :
    (message : String) (times : List ℕ) (d : Contents)
    → OneJob d
    → attempts message times d ≤ all_left d.jobs
unfolding attempts
attempts-le-left message [] d one = omega arith
attempts-le-left message (now ∷ times) d one = elim (attempt-cases message now d) [
  | inl unchanged ↦ rw unchanged (omega (arith, attempts-le-left message times d one))
  | inr (taken, t) ↦
      let d' = (attempt message now d).0 in
      omega (
        arith,
        taken,
        all_left-Tried message now d d' t one,
        attempts-le-left message times d' (OneJob-Tried message now d d' t one),
      )
]

all_left-le : (jobs : List BriefingJob) → all_left jobs ≤ 5 * count_where is_waiting jobs
all_left-le [] = omega arith
all_left-le (j ∷ jobs) = elim (Bool-cases (is_waiting j)) [
  | inl e ↦ rw e (omega (arith, all_left-le jobs))
  | inr e ↦ rw e (omega (arith, all_left-le jobs))
]

-- Trying ends: where no two jobs have one id, workers that claim jobs at any times and fail each, with
-- its own count of failures and any message, take at most five times as many as wait at the start.
pub attempts_end :
    (message : String) (times : List ℕ) (d : Contents)
    → OneJob d
    → attempts message times d ≤ 5 * count_where is_waiting d.jobs
attempts_end message times d one =
    omega (arith, attempts-le-left message times d one, all_left-le d.jobs)
