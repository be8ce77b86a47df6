-- ===== src/Store/Jobs/Tests.antt =====
-- Runs of the queue of internal/store/briefings.go.
use Prim.Native.String.{String}
use classing_backend.Base.{
  ◌≤◌, ◌≡◌, refl, true, ◌&&◌, ◌||◌, some, ◌∷◌, [], ltb, ◌==◌, string_eq, nat_eq, arith,
}
use text.Mathlib.TextEquality.{eq_iff}
use classing_backend.Base.Order.{order_by, insert_by}
use classing_backend.Base.Table.{select_one, count_where}
use classing_backend.Store.Core.{ok, err, not_found, conflict, normalize_db_error}
use classing_backend.Store.ContentRows.{BriefingJob, Contents, blank}
use classing_backend.Store.Fixtures.{contents}
use classing_backend.Store.Jobs.{
  ClaimedJob, claim_briefing_job, complete_briefing_job, fail_briefing_job, add_job, prefix_error,
  new_job, queue_briefing_job,
}
use classing_backend.Store.Jobs.Claims.{awaits, claim-eq-ok}
use classing_backend.Store.Jobs.Turns.{awaits_since, claim_all, claimed_in_turn}
use mathlib.Core.List.{Memᴰ}
use classing_backend.Store.Rows.{User}
use classing_backend.Store.Jobs.Once.{claimed_once, claimed_ids, claim, complete, enqueue}
use classing_backend.Store.Jobs.Failures.{attempt, attempts, attempts_end}

abbrev early : BriefingJob
early = new_job 1 "j1" "b" "2024-03-01" "EMAIL" 10 blank

abbrev late : BriefingJob
late = new_job 1 "j2" "b" "2024-03-02" "EMAIL" 20 blank

abbrev queued : Contents
queued = record contents { jobs = late ∷ early ∷ [] }

abbrev taken : ClaimedJob
taken = record {
  job = record early { status = "PROCESSING" };
  email = "bob@example.org";
  username = "bob";
}

abbrev busy : Contents
busy = record contents {
  jobs = late ∷ record early { status = "PROCESSING"; updated_at = 30 } ∷ [];
}

claims : claim_briefing_job 30 queued ≡ (ok taken, busy)
unfolding claim_briefing_job order_by insert_by
claims = refl

not_yet : (claim_briefing_job 5 queued).0 ≡ err not_found
unfolding claim_briefing_job order_by insert_by normalize_db_error
not_yet = refl

duplicate : (queue_briefing_job 2 "j3" "b" "2024-03-01" "EMAIL" 40 queued).0 ≡ err conflict
unfolding queue_briefing_job add_job normalize_db_error
duplicate = refl

claim-eq-ok_example :
    (item : BriefingJob) × (user : User) × Memᴰ item queued.jobs
    × ((item.status == "PENDING" || item.status == "RETRY") ≡ true)
    × (item.scheduled_at ≤ 30)
    × (count_where
          (λ j. awaits queued.accounts.users j && ltb j.scheduled_at item.scheduled_at)
          queued.jobs
        ≡ 0)
    × (select_one (λ u. u.id == item.user_id) queued.accounts.users ≡ some user)
    × (taken ≡ record {
      job = record item { status = "PROCESSING" };
      email = user.email;
      username = user.username;
    })
    × (count_where
          (λ j. j.id == item.id && (j.status == "PENDING" || j.status == "RETRY"))
          busy.jobs
        ≡ 0)
claim-eq-ok_example = claim-eq-ok 30 taken queued busy claims

one_each : (id : String) → count_where (λ j. j.id == id) queued.jobs ≤ 1
one_each id = ground (arith, eq_iff early.id id, eq_iff late.id id, eq_iff early.id late.id)

claimed_in_turn_example :
    count_where (awaits_since queued.accounts.users 15) (claim_all (30 ∷ []) queued).jobs ≡ 0
claimed_in_turn_example =
    claimed_in_turn 15 (30 ∷ []) queued one_each (omega arith, tt) (omega arith)

claimed_once_example :
    count_where
      (λ k. k == "j1")
      (claimed_ids
        (claim 30 ∷ claim 31 ∷ complete 32 "j1" "m" ∷ enqueue early ∷ claim 33 ∷ [])
        queued)
    ≤ 1
claimed_once_example =
    claimed_once "j1" (claim 30 ∷ claim 31 ∷ complete 32 "j1" "m" ∷ enqueue early ∷ claim 33 ∷ [])
      queued (refl, (refl, (refl, (refl, (refl, tt)))))

claims_both :
    claimed_ids (claim 30 ∷ claim 31 ∷ complete 32 "j1" "m" ∷ enqueue early ∷ claim 33 ∷ []) queued
    ≡ "j1" ∷ "j2" ∷ []
unfolding claimed_ids claim_briefing_job complete_briefing_job add_job order_by insert_by
claims_both = refl

attempts_end_example : attempts "no answer" (30 ∷ 31 ∷ 10000000 ∷ []) queued ≤ 10
attempts_end_example = attempts_end "no answer" (30 ∷ 31 ∷ 10000000 ∷ []) queued one_each

tries_again : attempts "no answer" (30 ∷ 31 ∷ 32 ∷ 10000000 ∷ []) queued ≡ 3
unfolding attempts attempt claim_briefing_job fail_briefing_job prefix_error order_by insert_by
tries_again = refl
