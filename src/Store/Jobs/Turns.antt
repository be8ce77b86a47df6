-- ===== src/Store/Jobs/Turns.antt =====
-- No job waits for ever: workers that go on claiming come to every job in turn.
use classing_backend.Base.{
  ℕ, ◌+◌, ◌-◌, ◌≤◌, ◌≡◌, refl, ◌∙◌, ap, sym, subst, String, Bool, true, ◌&&◌, List, [], ◌∷◌, arith,
  ltb, leb, ◌==◌, nat_eq, string_eq, inl, inr, Bool-cases, beq_refl,
}
use classing_backend.Base.Lists.{All, length}
use classing_backend.Base.Order.{head?-order_by_counted}
use classing_backend.Base.Table.{
  select_where, count_where, update_where, count_where-select_where, count_where_mono,
  count_where-update_same,
}
use classing_backend.Store.Core.{Result-cases}
use classing_backend.Store.Rows.{User}
use classing_backend.Store.ContentRows.{BriefingJob, Contents}
use classing_backend.Store.Briefings.{is_waiting}
use classing_backend.Store.Jobs.{ClaimedJob, is_claimable, processing, claim_briefing_job}
use classing_backend.Store.Jobs.Claims.{
  awaits, Claimed, claim-Claimed, claim-err, claim_succeeds, next_job-least, OneJob,
}

-- The tables after claims at some times, whose mails are still being sent.
unfoldable pub claim_all : List ℕ → Contents → Contents
claim_all [] d = d
claim_all (now ∷ times) d = claim_all times (claim_briefing_job now d).1

-- Whether the job waits, has an account, and was to be sent at a time or before.
abbrev pub awaits_since : List User → ℕ → BriefingJob → Bool
awaits_since users at j = awaits users j && leb j.scheduled_at at

module _ (users : List User) (at now : ℕ) where
  taken_count :
      (id : String) (jobs : List BriefingJob)
      → count_where
            (awaits_since users at)
            (update_where (λ j. j.id == id && is_waiting j) (processing now) jobs)
          + count_where (λ j. awaits_since users at j && j.id == id) jobs
        ≡ count_where (awaits_since users at) jobs
  taken_count id [] = refl
  taken_count id (j ∷ jobs) = elim (Bool-cases (j.id == id && is_waiting j)) [
    | inl e ↦ rw e (ground (arith, taken_count id jobs))
    | inr e ↦ rw e (ground (arith, taken_count id jobs))
  ]

claim-OneJob :
    (now : ℕ) (c : ClaimedJob) (d d' : Contents) → Claimed now c d d' → OneJob d → OneJob d'
claim-OneJob now c d d' r one id =
    subst (λ n. n ≤ 1)
      (sym (
        ap (count_where (λ j. j.id == id)) r.jobs
        ∙ count_where-update_same (λ j. j.id == id) (λ j. j.id == r.item.id && is_waiting j)
            (processing now) d.jobs
            (λ j. elim (Bool-cases (j.id == r.item.id && is_waiting j)) [
              | inl e ↦ rw e refl
              | inr e ↦ rw e refl
            ])))
      (one id)

-- The job that is taken was to be sent no later than any other.
taken_first :
    (now at : ℕ) (c : ClaimedJob) (d d' : Contents) (r : Claimed now c d d')
    → at ≤ now
    → 1 ≤ count_where (awaits_since d.accounts.users at) d.jobs
    → 1 ≤ count_where (λ j. awaits_since d.accounts.users at j && j.id == r.item.id) d.jobs
taken_first now at c d d' r due some_wait =
    let users = d.accounts.users in
    let least = next_job-least now d r.item r.found in
    let q = λ (j : BriefingJob). awaits_since users at j && j.id == r.item.id in
    let soon : leb r.item.scheduled_at at ≡ true = elim (Bool-cases (leb r.item.scheduled_at at)) [
      | inl e ↦ e
      | inr late ↦ absurd (
          omega (
            arith,
            some_wait,
            least.1,
            count_where_mono (awaits_since users at)
                (λ j. is_claimable now users j && ltb j.scheduled_at r.item.scheduled_at) d.jobs
                (λ j h. ground (arith, late)),
          ))
    ] in
    omega (
      arith,
      head?-order_by_counted (λ j k. ltb j.scheduled_at k.scheduled_at) q
          (select_where (is_claimable now users) d.jobs) r.item r.found
          (ground (arith, least.0, soon, beq_refl r.item.id)),
      count_where-select_where q (is_claimable now users) d.jobs,
      count_where_mono (λ j. is_claimable now users j && q j) q d.jobs (λ j h. ground arith),
    )

-- A claim takes one of the jobs that have waited since a time, if there is one.
record Advances (users : List User) (at : ℕ) (d d' : Contents) : Type 0 where
  accounts : d'.accounts ≡ d.accounts
  one : OneJob d'
  fewer :
      count_where (awaits_since users at) d'.jobs ≤ count_where (awaits_since users at) d.jobs - 1

Claimed-Advances :
    (now at : ℕ) (c : ClaimedJob) (d d' : Contents)
    → Claimed now c d d'
    → OneJob d
    → at ≤ now
    → Advances d.accounts.users at d d'
Claimed-Advances now at c d d' r one due = record {
  accounts = r.accounts;
  one = claim-OneJob now c d d' r one;
  fewer =
      let taken = taken_count d.accounts.users at now r.item.id d.jobs in
      let left = ap (count_where (awaits_since d.accounts.users at)) r.jobs in
      elim (Bool-cases (ltb 0 (count_where (awaits_since d.accounts.users at) d.jobs))) [
        | inl e ↦ omega (arith, left, taken, taken_first now at c d d' r due (ground (arith, e)))
        | inr e ↦
            let none' : count_where (awaits_since d.accounts.users at) d.jobs ≡ 0 =
              ground (arith, e) in
            omega (arith, left, taken, none')
      ];
}

claim-Advances :
    (now at : ℕ) (d : Contents)
    → OneJob d
    → at ≤ now
    → Advances d.accounts.users at d (claim_briefing_job now d).1
claim-Advances now at d one due = elim (Result-cases (claim_briefing_job now d).0) [
  | inl (c, got) ↦
      Claimed-Advances now at c d (claim_briefing_job now d).1
        (claim-Claimed now c d (claim_briefing_job now d).1 (ground (arith, got))) one due
  | inr (e, failed) ↦
      let same : (claim_briefing_job now d).1 ≡ d =
        claim-err now e d (claim_briefing_job now d).1 (ground (arith, failed)) in
      rw same (record {
        accounts = refl;
        one = one;
        fewer = elim (Bool-cases (ltb 0 (count_where (awaits_since d.accounts.users at) d.jobs))) [
          | inl some_wait ↦
              let (c, d', run) = claim_succeeds now d one (
                omega (
                  arith,
                  count_where_mono (awaits_since d.accounts.users at)
                      (is_claimable now d.accounts.users) d.jobs (λ j h. ground arith),
                  waiting some_wait,
                )) in
              absurd (ground (arith, run, failed))
          | inr e ↦ ground (arith, e)
        ];
      })
]
  where
    waiting :
        ltb 0 (count_where (awaits_since d.accounts.users at) d.jobs) ≡ true
        → 1 ≤ count_where (awaits_since d.accounts.users at) d.jobs
    waiting e = ground (arith, e)

in_turn :
    (users : List User) (at : ℕ) (times : List ℕ) (d : Contents)
    → d.accounts.users ≡ users
    → OneJob d
    → All (λ now. at ≤ now) times
    → count_where (awaits_since users at) d.jobs ≤ length times
    → count_where (awaits_since users at) (claim_all times d).jobs ≡ 0
unfolding claim_all
in_turn users at [] d same one due enough = omega (arith, enough)
in_turn users at (now ∷ times) d same one due enough =
    let a : Advances users at d (claim_briefing_job now d).1 =
      subst (λ u. Advances u at d (claim_briefing_job now d).1) same
        (claim-Advances now at d one due.0) in
    in_turn users at times (claim_briefing_job now d).1 (ap (λ t. t.users) a.accounts ∙ same) a.one
      due.1 (omega (arith, a.fewer, enough))

-- No job waits for ever: where no two jobs have one id, after as many claims as there are jobs with an
-- account that wait and were to be sent at some time or before, each claim at that time or later, none of these
-- jobs still waits, whatever other jobs have become due since.
pub claimed_in_turn :
    (at : ℕ) (times : List ℕ) (d : Contents)
    → OneJob d
    → All (λ now. at ≤ now) times
    → count_where (awaits_since d.accounts.users at) d.jobs ≤ length times
    → count_where (awaits_since d.accounts.users at) (claim_all times d).jobs ≡ 0
claimed_in_turn at times d one due enough = in_turn d.accounts.users at times d refl one due enough
