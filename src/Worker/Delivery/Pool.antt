-- ===== src/Worker/Delivery/Pool.antt =====
-- The loop over the mailboxes ends: each round excludes another one.
use classing_backend.Base.{
  ℕ, suc, ◌+◌, ◌-◌, ◌≤◌, ◌<◌, ◌≡◌, refl, ◌∙◌, ap, sym, subst, String, Bool, not, ◌&&◌, ◌||◌, some,
  List, [], ◌∷◌, arith, ◌==◌, nat_eq, string_eq, inl, inr, Bool-cases, beq_refl,
}
use classing_backend.Base.Lists.{length}
use classing_backend.Base.Order.{order_by, count_where-order_by}
use classing_backend.Base.Table.{
  count_where, update_where, select_where, count_where-update_same, count_where-select_where,
  count_where_mono, select_one_counted, select_one_passes,
}
use classing_backend.Store.Core.{ok}
use classing_backend.Store.ContentRows.{Mailbox, Contents}
use classing_backend.Store.JobLogs.{add_briefing_job_log}
use classing_backend.Store.Mailboxes.{
  start_day, pick_mailbox, can_be_used, used_once_more, has_quota, mailbox_before, is_reserved_at,
  acquire_mailbox_excluding, release_mailbox_reservation,
}
use classing_backend.Store.Mailboxes.Quota.{acquire-Acquired}
use classing_backend.Store.Jobs.{ClaimedJob}
use classing_backend.Worker.Mail.{BriefingDigest}
use classing_backend.Worker.Delivery.{
  LogStep, Outside, job_log, job_logs_of, tried_mailbox, dropped_mailbox, selected_step,
  failed_step,
}

-- The mailboxes that are not excluded.
abbrev pub free : (String → Bool) → List Mailbox → ℕ
free excluded rows = count_where (λ m. not (excluded m.id)) rows

pub free-le-length :
    (excluded : String → Bool) (rows : List Mailbox) → free excluded rows < suc (length rows)
free-le-length excluded [] = omega arith
free-le-length excluded (m ∷ rows) = ground (arith, free-le-length excluded rows)

free_split :
    (excluded : String → Bool) (k : String) (rows : List Mailbox)
    → free (λ id. id == k || excluded id) rows
        + count_where (λ m. m.id == k && not (excluded m.id)) rows
      ≡ free excluded rows
free_split excluded k [] = refl
free_split excluded k (m ∷ rows) = ground (arith, free_split excluded k rows)

-- An update that keeps the ids keeps what is counted by the ids.
update_counts :
    (p : String → Bool) (q : Mailbox → Bool) (f : Mailbox → Mailbox) (rows : List Mailbox)
    → ((m : Mailbox) → (f m).id ≡ m.id)
    → count_where (λ m. p m.id) (update_where q f rows) ≡ count_where (λ m. p m.id) rows
update_counts p q f rows keeps =
    count_where-update_same (λ m. p m.id) q f rows
      (λ m. elim (Bool-cases (q m)) [ inl e ↦ rw e (ap p (keeps m)) | inr e ↦ rw e refl ])

-- The mailbox that is picked is one that is not excluded.
picked_counts :
    (excluded : String → Bool) (d : Contents) (item : Mailbox)
    → pick_mailbox excluded d ≡ some item
    → 1 ≤ count_where (λ m. m.id == item.id && not (excluded m.id)) d.mailboxes
picked_counts excluded d item e =
    let ready = select_where has_quota d.mailboxes in
    let q = λ (m : Mailbox). m.id == item.id && not (excluded m.id) in
    let passes =
      (select_one_passes (λ m. not (excluded m.id)) (order_by mailbox_before ready) item e).0 in
    omega (
      arith,
      select_one_counted (λ m. not (excluded m.id)) q (order_by mailbox_before ready) item e
          (rw (beq_refl item.id) passes),
      count_where-order_by mailbox_before q ready,
      count_where-select_where q has_quota d.mailboxes,
      count_where_mono (λ m. has_quota m && q m) q d.mailboxes (λ m h. ground arith),
    )

pub acquired_free :
    (now : ℕ) (today : String) (excluded : String → Bool) (m : Mailbox) (d d' : Contents)
    → acquire_mailbox_excluding now today excluded d ≡ (ok m, d')
    → free (λ id. id == m.id || excluded id) d'.mailboxes + 1 ≤ free excluded d.mailboxes
acquired_free now today excluded m d d' run =
    let a = acquire-Acquired now today excluded m d d' run in
    let first = start_day now today d in
    let k = a.item.id in
    subst (λ id. free (λ x. x == id || excluded x) d'.mailboxes + 1 ≤ free excluded d.mailboxes)
      (sym (ap (λ m. m.id) a.returned))
      (omega (
        arith,
        ap (free (λ x. x == k || excluded x)) a.rows,
        update_counts (λ x. not (x == k || excluded x)) (can_be_used k) (used_once_more now)
            first.mailboxes (λ m. refl),
        free_split excluded k first.mailboxes,
        picked_counts excluded first a.item a.picked,
        update_counts (λ x. not (excluded x)) (λ m. not (m.usage_date == today))
            (λ m. record m { used_today = 0; usage_date = today; updated_at = now }) d.mailboxes
            (λ m. refl),
      ))

module _ (w : Outside) where
  -- Writing to the log changes no other table.
  pub job_log_keeps :
      (job : String) (s : LogStep) (d : Contents)
      → ((job_log w job s d).mailboxes ≡ d.mailboxes) × ((job_log w job s d).jobs ≡ d.jobs)
  unfolding job_log add_briefing_job_log
  job_log_keeps job s d = (ground arith, ground arith)

  pub job_logs_of_keeps :
      (job : String) (steps : List LogStep) (d : Contents)
      → ((job_logs_of w job steps d).mailboxes ≡ d.mailboxes)
        × ((job_logs_of w job steps d).jobs ≡ d.jobs)
  unfolding job_logs_of
  job_logs_of_keeps job [] d = (refl, refl)
  job_logs_of_keeps job (s ∷ steps) d = (
    (job_logs_of_keeps job steps (job_log w job s d)).0 ∙ (job_log_keeps job s d).0,
    (job_logs_of_keeps job steps (job_log w job s d)).1 ∙ (job_log_keeps job s d).1,
  )

  pub tried_keeps :
      (c : ClaimedJob) (digest : BriefingDigest) (m : Mailbox) (d : Contents)
      → ((tried_mailbox w c digest m d).mailboxes ≡ d.mailboxes)
        × ((tried_mailbox w c digest m d).jobs ≡ d.jobs)
  unfolding tried_mailbox
  tried_keeps c digest m d =
      let steps =
        job_logs_of_keeps c.job.id (w.send m c digest).steps
          (job_log w c.job.id (selected_step m) d) in
      let first = job_log_keeps c.job.id (selected_step m) d in
      (steps.0 ∙ first.0, steps.1 ∙ first.1)

  pub dropped_free :
      (excluded : String → Bool) (c : ClaimedJob) (m : Mailbox) (error : String) (d : Contents)
      → free excluded (dropped_mailbox w c m error d).mailboxes ≡ free excluded d.mailboxes
  unfolding dropped_mailbox release_mailbox_reservation
  dropped_free excluded c m error d =
      update_counts (λ id. not (excluded id)) (is_reserved_at m.id w.today)
        (λ m. record m { used_today = m.used_today - 1; updated_at = w.now })
        (job_log w c.job.id (failed_step m error) d).mailboxes (λ m. refl)
      ∙ ap (free excluded) (job_log_keeps c.job.id (failed_step m error) d).0
