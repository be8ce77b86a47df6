-- ===== src/Worker/Delivery/Settled.antt =====
-- A claimed job does not stay in the hands of the worker: it is sent, or put back, or given up.
use classing_backend.Base.{
  ℕ, zero, suc, ◌<◌, ◌≡◌, refl, ◌∙◌, ap, sym, subst, String, Bool, true, false, not, ◌&&◌, ◌||◌,
  ◌⊎◌, Option, none, some, arith, leb, if◌then◌else◌, ◌==◌, nat_eq, string_eq, inl, inr, Bool-cases,
  Option-cases, beq_refl,
}
use classing_backend.Base.Lists.{length}
use classing_backend.Base.Table.{count_where, update_where, count_where-update_none}
use classing_backend.Store.Core.{Error, ok, err, Result-cases}
use classing_backend.Store.ContentRows.{Mailbox, BriefingJob, Contents}
use classing_backend.Store.Mailboxes.{acquire_mailbox_excluding}
use classing_backend.Store.Jobs.{
  ClaimedJob, claim_briefing_job, fail_briefing_job, failed, complete_briefing_job, sent,
  prefix_error,
}
use classing_backend.Worker.Mail.{BriefingDigest, classify_mail_error}
use classing_backend.Worker.Delivery.{
  Outside, Outcome, delivered, gave_up, job_log, delivery_loop, tried_mailbox, dropped_mailbox,
  give_up, pool_exhausted, is_mailbox_failure, claimed_step, loaded_step, close_job,
  deliver_claimed, deliver_one,
}
use classing_backend.Worker.Delivery.Pool.{
  free, free-le-length, acquired_free, job_log_keeps, tried_keeps, dropped_free,
}

-- The status that a failure leaves.
abbrev pub is_put_back : BriefingJob → Bool
is_put_back j = j.status == "RETRY" || j.status == "FAILED"

module _ (w : Outside) where
  -- How the loop ends: with a mailbox that has accepted the mail, or with the job put back or given up.
  abbrev LoopEnds : ClaimedJob → BriefingDigest → Option Outcome × Contents → Type 0
  LoopEnds c digest end =
      ((m : Mailbox) × (end.0 ≡ some (delivered m)) × ((w.send m c digest).failure ≡ none))
      ⊎ ((reason : String) × (end.0 ≡ some (gave_up reason))
          × (count_where (λ j. j.id == c.job.id && not (is_put_back j)) end.1.jobs ≡ 0))

  failed_put_back :
      (message : String) (n : ℕ) (j : BriefingJob) → is_put_back (failed w.now message n j) ≡ true
  failed_put_back message n j = elim (Bool-cases (leb 4 n)) [
    | inl e ↦ rw e refl
    | inr e ↦ rw e refl
  ]

  give_up-LoopEnds :
      (c : ClaimedJob) (digest : BriefingDigest) (reason : String) (d : Contents)
      → LoopEnds c digest (give_up w c reason d)
  unfolding give_up fail_briefing_job
  give_up-LoopEnds c digest reason d =
      let message = prefix_error reason 500 in
      let f = failed w.now message c.job.retry_count in
      inr (
        reason,
        refl,
        count_where-update_none (λ j. j.id == c.job.id && not (is_put_back j))
            (λ j. j.id == c.job.id) f d.jobs
            (λ j. elim (Bool-cases (j.id == c.job.id)) [
              | inl e ↦ rw (e, failed_put_back message c.job.retry_count j) (ground arith)
              | inr e ↦ rw e (rw e refl)
            ]),
      )

  pool_exhausted-LoopEnds :
      (c : ClaimedJob) (digest : BriefingDigest) (e : Error) (d : Contents)
      → LoopEnds c digest (pool_exhausted w c e d)
  unfolding pool_exhausted
  pool_exhausted-LoopEnds c digest e d = give_up-LoopEnds c digest "mailbox pool exhausted" _

  -- The rounds of the loop, by what the pool gives and what becomes of the mail.
  module _ (fuel : ℕ) (excluded : String → Bool) (c : ClaimedJob) (digest : BriefingDigest)
      (d d₁ : Contents) where
    exhausted_round :
        (e : Error)
        → acquire_mailbox_excluding w.now w.today excluded d ≡ (err e, d₁)
        → delivery_loop w (suc fuel) excluded c digest d ≡ pool_exhausted w c e d₁
    unfolding delivery_loop
    exhausted_round e run = ground arith

    accepted_round :
        (m : Mailbox)
        → acquire_mailbox_excluding w.now w.today excluded d ≡ (ok m, d₁)
        → (w.send m c digest).failure ≡ none
        → delivery_loop w (suc fuel) excluded c digest d
          ≡ (some (delivered m), tried_mailbox w c digest m d₁)
    unfolding delivery_loop
    accepted_round m run accepted = ground arith

    refused_round :
        (m : Mailbox) (error : String)
        → acquire_mailbox_excluding w.now w.today excluded d ≡ (ok m, d₁)
        → (w.send m c digest).failure ≡ some error
        → delivery_loop w (suc fuel) excluded c digest d ≡ (
            let d₃ = dropped_mailbox w c m error (tried_mailbox w c digest m d₁) in
            if is_mailbox_failure (classify_mail_error error)
            then delivery_loop w fuel (λ id. id == m.id || excluded id) c digest d₃
            else give_up w c (classify_mail_error error) d₃)
    unfolding delivery_loop
    refused_round m error run refused = ground arith

  delivery_loop-LoopEnds :
      (fuel : ℕ) (excluded : String → Bool) (c : ClaimedJob) (digest : BriefingDigest)
      (d : Contents)
      → free excluded d.mailboxes < fuel
      → LoopEnds c digest (delivery_loop w fuel excluded c digest d)
  delivery_loop-LoopEnds zero excluded c digest d lt = absurd (omega (arith, lt))
  delivery_loop-LoopEnds (suc fuel) excluded c digest d lt =
      let d₁ = (acquire_mailbox_excluding w.now w.today excluded d).1 in
      elim (Result-cases (acquire_mailbox_excluding w.now w.today excluded d).0) [
        | inr (e, empty) ↦
            rw (exhausted_round fuel excluded c digest d d₁ e (ground arith))
              (pool_exhausted-LoopEnds c digest e d₁)
        | inl (m, got) ↦
            let run : acquire_mailbox_excluding w.now w.today excluded d ≡ (ok m, d₁) =
              ground arith in
            elim (Option-cases (w.send m c digest).failure) [
              | inl accepted ↦
                  rw (accepted_round fuel excluded c digest d d₁ m run accepted)
                    (inl (m, refl, accepted))
              | inr (error, refused) ↦
                  let d₃ = dropped_mailbox w c m error (tried_mailbox w c digest m d₁) in
                  let excluded' = λ (id : String). id == m.id || excluded id in
                  let less : free excluded' d₃.mailboxes < fuel = omega (
                    arith,
                    lt,
                    dropped_free w excluded' c m error (tried_mailbox w c digest m d₁),
                    ap (free excluded') (tried_keeps w c digest m d₁).0,
                    acquired_free w.now w.today excluded m d d₁ run,
                  ) in
                  rw (refused_round fuel excluded c digest d d₁ m error run refused)
                    (elim (Bool-cases (is_mailbox_failure (classify_mail_error error))) [
                      | inl other ↦
                          rw other (delivery_loop-LoopEnds fuel excluded' c digest d₃ less)
                      | inr final ↦
                          rw final (give_up-LoopEnds c digest (classify_mail_error error) d₃)
                    ])
            ]
      ]

  -- How a delivery ends for the job that it has claimed.
  abbrev pub IsSettled : ClaimedJob → BriefingDigest → Option Outcome × Contents → Type 0
  IsSettled c digest end =
      ((m : Mailbox) × (end.0 ≡ some (delivered m))
        × ((w.send m c digest).failure ≡ none)
        × (count_where
              (λ j. j.id == c.job.id && not (j.status == "SENT" && j.provider_mailbox_id == m.id))
              end.1.jobs
            ≡ 0))
      ⊎ ((reason : String) × (end.0 ≡ some (gave_up reason))
          × (count_where (λ j. j.id == c.job.id && not (is_put_back j)) end.1.jobs ≡ 0))

  close_job-sent :
      (c : ClaimedJob) (m : Mailbox) (d : Contents)
      → ((close_job w c (some (delivered m), d)).0 ≡ some (delivered m))
        × ((close_job w c (some (delivered m), d)).1.jobs
            ≡ update_where (λ j. j.id == c.job.id) (sent w.now m.id) d.jobs)
  unfolding close_job complete_briefing_job
  close_job-sent c m d = (refl, (job_log_keeps w c.job.id _ _).1)

  close_job-IsSettled :
      (c : ClaimedJob) (digest : BriefingDigest) (end : Option Outcome × Contents)
      → LoopEnds c digest end
      → IsSettled c digest (close_job w c end)
  unfolding close_job
  close_job-IsSettled c digest (o, d) (inl (m, e, accepted)) =
      let p = λ (j : BriefingJob).
        j.id == c.job.id && not (j.status == "SENT" && j.provider_mailbox_id == m.id) in
      let closed = close_job-sent c m d in
      subst (λ o. IsSettled c digest (close_job w c (o, d))) (sym e)
        (inl (
          m,
          closed.0,
          accepted,
          ap (count_where p) closed.1
              ∙ count_where-update_none p (λ j. j.id == c.job.id) (sent w.now m.id) d.jobs
                  (λ j. elim (Bool-cases (j.id == c.job.id)) [
                    | inl same ↦ rw same (ground (arith, beq_refl m.id))
                    | inr other ↦ rw other (rw other refl)
                  ]),
        ))
  close_job-IsSettled c digest (o, d) (inr (reason, e, back)) =
      subst (λ o. IsSettled c digest (close_job w c (o, d))) (sym e)
        (inr (reason, gave_up_stays.0, gave_up_stays.1))
    where
      gave_up_stays :
          ((close_job w c (some (gave_up reason), d)).0 ≡ some (gave_up reason))
          × (count_where
                (λ j. j.id == c.job.id && not (is_put_back j))
                (close_job w c (some (gave_up reason), d)).1.jobs
              ≡ 0)
      gave_up_stays = (refl, back)

  claimed_settles :
      (c : ClaimedJob) (d : Contents)
      → IsSettled c (w.build c (job_log w c.job.id (claimed_step w c) d)) (deliver_claimed w c d)
  unfolding deliver_claimed
  claimed_settles c d =
      let digest = w.build c (job_log w c.job.id (claimed_step w c) d) in
      let d₂ =
        job_log w c.job.id (loaded_step w digest) (job_log w c.job.id (claimed_step w c) d) in
      let fuel = suc (length d₂.mailboxes) in
      close_job-IsSettled c digest (delivery_loop w fuel (λ id. false) c digest d₂) (
        delivery_loop-LoopEnds fuel (λ id. false) c digest d₂
          (free-le-length (λ id. false) d₂.mailboxes))

  deliver_one_claimed :
      (c : ClaimedJob) (d d₁ : Contents)
      → claim_briefing_job w.now d ≡ (ok c, d₁)
      → deliver_one w d ≡ deliver_claimed w c d₁
  unfolding deliver_one
  deliver_one_claimed c d d₁ claimed = ground arith

  -- A claimed job is settled: whatever the sending of a mail does, the loop over the mailboxes ends, and
  -- then either one mailbox has accepted the mail and every row of the job is marked as sent by that
  -- mailbox, or the delivery is given up and every row of the job is to be tried again or has failed.
  pub deliver_settles :
      (c : ClaimedJob) (d d₁ : Contents)
      → claim_briefing_job w.now d ≡ (ok c, d₁)
      → IsSettled c (w.build c (job_log w c.job.id (claimed_step w c) d₁)) (deliver_one w d)
  deliver_settles c d d₁ claimed = rw (deliver_one_claimed c d d₁ claimed) (claimed_settles c d₁)
