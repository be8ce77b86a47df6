-- ===== src/Store/Jobs/Once.antt =====
-- No job is claimed twice, whatever the workers and the requests do in between.
use classing_backend.Base.{
  ℕ, ◌≤◌, ◌≡◌, refl, ◌∙◌, ap, sym, subst, eq_of_beq, ◌⊎◌, String, Bool, true, false, not, ◌&&◌,
  List, [], ◌∷◌, ◌++◌, arith, ltb, ◌==◌, nat_eq, string_eq, inl, inr, Bool-cases,
}
use text.Mathlib.TextEquality.{eq_iff}
use classing_backend.Base.Lists.{All}
use classing_backend.Base.Table.{
  count_where, count_where_none, update_where, count_where-update_where, count_where_mono,
  count_where-update_same, updated, count_where-append,
}
use classing_backend.Store.Core.{Result, ok, err, Result-cases}
use classing_backend.Store.ContentRows.{BriefingJob, Contents}
use classing_backend.Store.Briefings.{is_waiting, is_cancelled_with, cancelled, cancel_jobs}
use classing_backend.Store.Jobs.{
  ClaimedJob, processing, claim_briefing_job, complete_briefing_job, sent, fail_briefing_job,
  failed, prefix_error, retry_briefing_job, requeued, add_job, is_same_job,
}
use classing_backend.Store.Jobs.Claims.{claim-Claimed, claim-err, processing_not_waiting}

-- The statements that change jobs: those of the workers, of an administrator and of the users.
pub data JobStep : Type 0 where
  claim : ℕ → JobStep
  complete : ℕ → String → String → JobStep
  fail_with : ℕ → String → String → ℕ → JobStep
  requeue : ℕ → String → JobStep
  enqueue : BriefingJob → JobStep
  cancel : ℕ → String → JobStep

abbrev pub claimed_id : Result ClaimedJob → List String
claimed_id (ok c) = c.job.id ∷ []
claimed_id (err e) = []

-- The tables after a step, and the id of the job that it claims.
pub take_step : JobStep → Contents → Contents × List String
take_step (claim now) d = let (r, d') = claim_briefing_job now d in (d', claimed_id r)
take_step (complete now id mailbox) d = ((complete_briefing_job now id mailbox d).1, [])
take_step (fail_with now id message retry_count) d =
    ((fail_briefing_job now id message retry_count d).1, [])
take_step (requeue now id) d = ((retry_briefing_job now id d).1, [])
take_step (enqueue row) d = ((add_job row d).1, [])
take_step (cancel now user) d = (cancel_jobs now user d, [])

-- The ids that are claimed in a run.
unfoldable pub claimed_ids : List JobStep → Contents → List String
unfolding take_step
claimed_ids [] d = []
claimed_ids (s ∷ steps) d = let (d', ids) = take_step s d in ids ++ claimed_ids steps d'

-- Neither a failure nor an administrator puts the job back into the queue.
abbrev pub leaves : String → JobStep → Bool
leaves id (fail_with now other message retry_count) = not (other == id)
leaves id (requeue now other) = not (other == id)
leaves id _ = true

-- The job is there and does not wait.
record IsTaken (id : String) (jobs : List BriefingJob) : Type 0 where
  present : 1 ≤ count_where (λ j. j.id == id) jobs
  idle : count_where (λ j. j.id == id && is_waiting j) jobs ≡ 0

IsTaken-update_where :
    (id : String) (q : BriefingJob → Bool) (f : BriefingJob → BriefingJob) (jobs : List BriefingJob)
    → ((j : BriefingJob) → ((f j).id == id) ≡ (j.id == id))
    → ((j : BriefingJob) → q j ≡ true → (j.id == id) ≡ true → is_waiting (f j) ≡ false)
    → IsTaken id jobs
    → IsTaken id (update_where q f jobs)
IsTaken-update_where id q f jobs same idle t =
    let p = λ (j : BriefingJob). j.id == id in
    let w = λ (j : BriefingJob). j.id == id && is_waiting j in
    record {
      present =
          omega
            (arith, t.present, count_where-update_same p q f jobs (λ j. ground (arith, same j)));
      idle = omega (
        arith,
        t.idle,
        count_where-update_where w q f jobs,
        count_where_mono (λ j. w (updated q f j)) w jobs (λ j h. after j h),
      );
    }
  where
    after :
        (j : BriefingJob)
        → ((updated q f j).id == id && is_waiting (updated q f j)) ≡ true
        → (j.id == id && is_waiting j) ≡ true
    after j h = elim (Bool-cases (q j)) [
      | inl e ↦ ground (arith, same j, idle j e)
      | inr e ↦ ground arith
    ]

module _ (id : String) (d : Contents) (t : IsTaken id d.jobs) where
  -- A claim takes another job, since this one does not wait.
  claim-ne :
      (now : ℕ) (c : ClaimedJob) (d' : Contents)
      → claim_briefing_job now d ≡ (ok c, d')
      → ((c.job.id == id) ≡ false) × IsTaken id d'.jobs
  claim-ne now c d' run =
      let r = claim-Claimed now c d d' run in
      let q = λ (j : BriefingJob). j.id == r.item.id && is_waiting j in
      let other : (r.item.id == id) ≡ false = elim (Bool-cases (r.item.id == id)) [
        | inl e ↦ absurd (
            omega (
              arith,
              t.idle,
              r.one,
              ap (λ (k : String). count_where (λ j. j.id == k && is_waiting j) d.jobs)
                  (eq_of_beq r.item.id id e),
            ))
        | inr e ↦ e
      ] in
      (
        ap (λ (c : ClaimedJob). c.job.id == id) r.returned ∙ other,
        subst (IsTaken id) (sym r.jobs)
            (IsTaken-update_where id q (processing now) d.jobs (λ j. refl) (λ j e h. refl) t),
      )

  complete-IsTaken :
      (now : ℕ) (other mailbox : String)
      → IsTaken id (complete_briefing_job now other mailbox d).1.jobs
  unfolding complete_briefing_job
  complete-IsTaken now other mailbox =
      IsTaken-update_where id (λ j. j.id == other) (sent now mailbox) d.jobs (λ j. refl)
        (λ j e h. refl) t

  fail-IsTaken :
      (now : ℕ) (other message : String) (retry_count : ℕ)
      → (other == id) ≡ false
      → IsTaken id (fail_briefing_job now other message retry_count d).1.jobs
  unfolding fail_briefing_job
  fail-IsTaken now other message retry_count h =
      IsTaken-update_where id (λ j. j.id == other)
        (failed now (prefix_error message 500) retry_count) d.jobs (λ j. refl)
        (λ j e g. ground (arith, eq_iff j.id other, eq_iff j.id id, eq_iff other id)) t

  requeue-IsTaken :
      (now : ℕ) (other : String)
      → (other == id) ≡ false
      → IsTaken id (retry_briefing_job now other d).1.jobs
  unfolding retry_briefing_job
  requeue-IsTaken now other h =
      IsTaken-update_where id (λ j. j.id == other) (requeued now) d.jobs (λ j. refl)
        (λ j e g. ground (arith, eq_iff j.id other, eq_iff j.id id, eq_iff other id)) t

  cancel-IsTaken : (now : ℕ) (user : String) → IsTaken id (cancel_jobs now user d).jobs
  cancel-IsTaken now user =
      IsTaken-update_where id (is_cancelled_with user) (cancelled now) d.jobs (λ j. refl)
        (λ j e h. refl) t

  enqueue-IsTaken : (row : BriefingJob) → IsTaken id (add_job row d).1.jobs
  unfolding add_job
  enqueue-IsTaken row = elim (Bool-cases (ltb 0 (count_where (is_same_job row) d.jobs))) [
    | inl e ↦ rw (e, add_job) t
    | inr e ↦ rw (e, add_job) (inserted (ground arith))
  ]
    where
      inserted : count_where (is_same_job row) d.jobs ≡ 0 → IsTaken id (d.jobs ++ row ∷ [])
      inserted none_same =
          let other : (row.id == id) ≡ false = elim (Bool-cases (row.id == id)) [
            | inl e ↦ absurd (
                omega (
                  arith,
                  t.present,
                  none_same,
                  count_where_mono (λ j. j.id == id) (is_same_job row) d.jobs
                      (λ j h. ground (arith, eq_iff j.id id, eq_iff row.id id, eq_iff j.id row.id)),
                ))
            | inr e ↦ e
          ] in
          ground (
            arith,
            count_where-append (λ j. j.id == id) d.jobs (row ∷ []),
            count_where-append (λ j. j.id == id && is_waiting j) d.jobs (row ∷ []),
          )

-- A taken job stays taken, and no claim takes it, for as long as it is left alone.
take_step-IsTaken :
    (id : String) (s : JobStep) (d : Contents)
    → IsTaken id d.jobs
    → leaves id s ≡ true
    → IsTaken id (take_step s d).0.jobs × (count_where (λ k. k == id) (take_step s d).1 ≡ 0)
unfolding take_step
take_step-IsTaken id (claim now) d t h = elim (Result-cases (claim_briefing_job now d).0) [
  | inl (c, e) ↦
      let n = claim-ne id d t now c (claim_briefing_job now d).1 (ground arith) in
      (n.1, ground (arith, n.0))
  | inr (e, r) ↦
      let same = claim-err now e d (claim_briefing_job now d).1 (ground arith) in
      (rw same t, ground arith)
]
take_step-IsTaken id (complete now other mailbox) d t h =
    (complete-IsTaken id d t now other mailbox, refl)
take_step-IsTaken id (fail_with now other message retry_count) d t h =
    (fail-IsTaken id d t now other message retry_count (ground arith), refl)
take_step-IsTaken id (requeue now other) d t h =
    (requeue-IsTaken id d t now other (ground arith), refl)
take_step-IsTaken id (enqueue row) d t h = (enqueue-IsTaken id d t row, refl)
take_step-IsTaken id (cancel now user) d t h = (cancel-IsTaken id d t now user, refl)

claimed_never :
    (id : String) (steps : List JobStep) (d : Contents)
    → IsTaken id d.jobs
    → All (λ s. leaves id s ≡ true) steps
    → count_where (λ k. k == id) (claimed_ids steps d) ≡ 0
unfolding claimed_ids
claimed_never id [] d t a = refl
claimed_never id (s ∷ steps) d t a =
    let n = take_step-IsTaken id s d t a.0 in
    omega (
      arith,
      n.1,
      count_where-append (λ k. k == id) (take_step s d).1 (claimed_ids steps (take_step s d).0),
      claimed_never id steps (take_step s d).0 n.0 a.1,
    )

-- The job that a claim takes is taken.
claim-IsTaken :
    (now : ℕ) (c : ClaimedJob) (d d' : Contents)
    → claim_briefing_job now d ≡ (ok c, d')
    → IsTaken c.job.id d'.jobs
claim-IsTaken now c d d' run =
    let r = claim-Claimed now c d d' run in
    let k = r.item.id in
    let q = λ (j : BriefingJob). j.id == k && is_waiting j in
    let taken : IsTaken k (update_where q (processing now) d.jobs) = record {
      present = omega (
        arith,
        r.one,
        count_where_mono q (λ j. j.id == k) d.jobs (λ j h. ground arith),
        count_where-update_same (λ j. j.id == k) q (processing now) d.jobs (λ j. ground arith),
      );
      idle =
          count_where-update_where q q (processing now) d.jobs
          ∙ count_where_none (λ j. q (updated q (processing now) j)) d.jobs
              (processing_not_waiting now k);
    } in
    subst (λ i. IsTaken i d'.jobs) (sym (ap (λ (c : ClaimedJob). c.job.id) r.returned))
      (subst (IsTaken k) (sym r.jobs) taken)

-- A step claims the job, which is then taken, or does not.
first_or_free :
    (id : String) (s : JobStep) (d : Contents)
    → ((count_where (λ k. k == id) (take_step s d).1 ≡ 1) × IsTaken id (take_step s d).0.jobs)
      ⊎ (count_where (λ k. k == id) (take_step s d).1 ≡ 0)
unfolding take_step
first_or_free id (claim now) d = elim (Result-cases (claim_briefing_job now d).0) [
  | inl (c, e) ↦ elim (Bool-cases (c.job.id == id)) [
    | inl same ↦
        let t = claim-IsTaken now c d (claim_briefing_job now d).1 (ground arith) in
        inl (
          ground arith,
          subst (λ i. IsTaken i (claim_briefing_job now d).1.jobs) (eq_of_beq c.job.id id same) t,
        )
    | inr other ↦ inr (ground arith)
  ]
  | inr (e, r) ↦ inr (ground arith)
]
first_or_free id (complete now other mailbox) d = inr refl
first_or_free id (fail_with now other message retry_count) d = inr refl
first_or_free id (requeue now other) d = inr refl
first_or_free id (enqueue row) d = inr refl
first_or_free id (cancel now user) d = inr refl

-- A job is claimed once: in any run of claims, completions, failures, retries, new jobs and
-- cancellations, on any tables, a job is claimed one time at most unless it fails or is put back by an
-- administrator in that run.
pub claimed_once :
    (id : String) (steps : List JobStep) (d : Contents)
    → All (λ s. leaves id s ≡ true) steps
    → count_where (λ k. k == id) (claimed_ids steps d) ≤ 1
unfolding claimed_ids
claimed_once id [] d a = omega arith
claimed_once id (s ∷ steps) d a =
    let d' = (take_step s d).0 in
    let ids = (take_step s d).1 in
    let later = count_where-append (λ k. k == id) ids (claimed_ids steps d') in
    elim (first_or_free id s d) [
      | inl (one, taken) ↦ omega (arith, later, one, claimed_never id steps d' taken a.1)
      | inr free ↦ omega (arith, later, free, claimed_once id steps d' a.1)
    ]
