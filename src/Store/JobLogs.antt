-- ===== src/Store/JobLogs.antt =====
-- internal/store/briefings.go, the log of what happened to a job. The details come encoded.
use classing_backend.Base.{
  ℕ, String, Bool, false, ◌&&◌, ◌||◌, Option, none, some, List, [], ◌∷◌, ltb, if◌then◌else◌, ◌==◌,
  nat_eq, string_eq,
}
use mathlib.Core.List.{reverse}
use classing_backend.Base.Lists.{take}
use classing_backend.Base.Order.{order_by}
use classing_backend.Base.Table.{select_where}
use classing_backend.Base.Text.{trim_space, to_upper}
use classing_backend.Store.Core.{
  invalid, duplicate_key, normalize_db_error, ok, Action, fail, insert_row,
}
use classing_backend.Store.ContentRows.{BriefingJobLog, Contents}
use classing_backend.Store.Events.{text_ltb}
use classing_backend.Store.Jobs.{prefix_error}

abbrev pub or_else : String → String → String
or_else s default = if s == "" then default else s

abbrev pub new_log : ℕ → String → String → String → String → String → Option String → BriefingJobLog
new_log now id job level event message details =
    let event' = or_else (trim_space event) "event" in
    record {
      id = id;
      job_id = trim_space job;
      level = prefix_error (or_else (to_upper (trim_space level)) "INFO") 16;
      event = prefix_error event' 80;
      message = prefix_error (or_else (trim_space message) event') 500;
      details = elim details [ none ↦ "{}" | some encoded ↦ prefix_error encoded 4000 ];
      created_at = now;
    }

unfoldable pub add_briefing_job_log :
    ℕ → String → String → String → String → String → Option String → Action Contents (Unit {0})
add_briefing_job_log now id job level event message details d =
    if trim_space job == ""
    then fail invalid d
    else (elim (insert_row (λ l. l.id == id) (new_log now id job level event message details)
        d.job_logs) [
          | none ↦ fail (normalize_db_error duplicate_key) d
          | some rows ↦ (ok tt, record d { job_logs = rows })
        ])

-- ORDER BY created_at DESC, id DESC
abbrev pub log_before : BriefingJobLog → BriefingJobLog → Bool
log_before l m =
    ltb m.created_at l.created_at || (l.created_at == m.created_at && text_ltb m.id l.id)

-- The last entries of a job, the oldest first.
latest_logs : ℕ → String → Contents → List BriefingJobLog
latest_logs limit job d =
    reverse (take limit (order_by log_before (select_where (λ l. l.job_id == job) d.job_logs)))

seen_job : String → List String → Bool
seen_job id [] = false
seen_job id (x ∷ xs) = x == id || seen_job id xs

-- The rounds of the loop, with the ids that earlier rounds have seen.
logs_of : ℕ → List String → List String → Contents → List (String × List BriefingJobLog)
unfolding latest_logs seen_job
logs_of limit seen [] d = []
logs_of limit seen (id ∷ ids) d =
    let job = trim_space id in
    let skipped = logs_of limit seen ids d in
    let listed = logs_of limit (job ∷ seen) ids d in
    if job == "" || seen_job job seen then skipped else (job, latest_logs limit job d) ∷ listed

list_briefing_job_logs : List String → ℕ → Contents → List (String × List BriefingJobLog)
unfolding logs_of
list_briefing_job_logs job_ids limit_per_job d =
    logs_of (if limit_per_job == 0 then 20 else limit_per_job) [] job_ids d
