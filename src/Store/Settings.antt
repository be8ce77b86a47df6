-- ===== src/Store/Settings.antt =====
-- internal/store/admin.go: the settings of the system, the clean-up of the audit log, and the numbers of
-- the dashboard. A map of settings is a list of its keys and values, in the order of Go's iteration.
pub mod Written
mod Tests
use classing_backend.Base.{
  ℕ, ◌-◌, ◌*◌, String, Bool, true, false, not, ◌&&◌, ◌||◌, Option, none, some, List, [], ◌∷◌, ◌++◌,
  map, leb, ltb, if◌then◌else◌, ◌==◌, nat_eq, string_eq,
}
use classing_backend.Base.Lists.{length}
use classing_backend.Base.Order.{order_by, page}
use classing_backend.Base.Table.{select_one, count_where, update_where, delete_where}
use classing_backend.Store.Core.{
  invalid, unavailable, Result, ok, err, Action, pure, fail, gets, ◌>>=◌, ◌>>◌, fail_if, modify,
  transaction, commit,
}
use classing_backend.Store.Rows.{AuditContext, AuditLog, settings_written, status_deleted}
use classing_backend.Store.ContentRows.{Setting, setting_written, Contents}
use classing_backend.Store.Events.{audit_contents, runtime_event_in_tx, text_ltb}
use classing_backend.Store.Briefings.{is_waiting}

-- The value under a key, or the fallback.
unfoldable pub setting : String → String → Contents → String
setting key fallback d = elim (select_one (λ s. s.setting_key == key) d.settings) [
  | none ↦ fallback
  | some s ↦ s.setting_value
]

pub record DashboardStats : Type 0 where
  pub users : ℕ
  pub active_members : ℕ
  pub timetable_projects : ℕ
  pub pending_jobs : ℕ
  pub cloud_documents : ℕ

dashboard : ℕ → Contents → DashboardStats
dashboard now d = record {
  users = count_where (λ u. not (u.status == status_deleted)) d.accounts.users;
  active_members = count_where (λ m. ltb now m.expires_at) d.accounts.memberships;
  timetable_projects = count_where (λ t. true) d.timetables;
  pending_jobs = count_where is_waiting d.jobs;
  cloud_documents = count_where (λ c. true) d.documents;
}

list_audit : ℕ → ℕ → Contents → List AuditLog × ℕ
list_audit limit offset d = (
  page limit offset (order_by (λ l m. ltb m.created_at l.created_at) d.accounts.audit_logs),
  count_where (λ l. true) d.accounts.audit_logs,
)

-- The number of rows that are deleted. Times start with 1970, so a longer retention deletes nothing.
unfoldable pub cleanup_audit_logs : ℕ → ℕ → Action Contents ℕ
cleanup_audit_logs now retention_days = do
  fail_if (leb retention_days 0 || ltb 3650 retention_days) invalid
  let cutoff = now - retention_days * (24 * 60 * 60 * 1000)
  deleted ← gets (λ d. count_where (λ l. ltb l.created_at cutoff) d.accounts.audit_logs)
  modify λ d. record d {
    accounts = record d.accounts {
      audit_logs = delete_where (λ l. ltb l.created_at cutoff) d.accounts.audit_logs;
    };
  }
  pure deleted

list_settings : Contents → List (String × String)
list_settings d =
    map (λ s. (s.setting_key, s.setting_value))
      (order_by (λ s t. text_ltb s.setting_key t.setting_key) d.settings)

-- INSERT INTO system_settings ... ON CONFLICT(setting_key) DO UPDATE
abbrev pub put_setting : Setting → Contents → Contents
put_setting row d = record d {
  settings =
      if ltb 0 (count_where (λ s. s.setting_key == row.setting_key) d.settings)
      then update_where (λ s. s.setting_key == row.setting_key) (λ _. row) d.settings
      else d.settings ++ row ∷ [];
}

abbrev pub new_setting : ℕ → String → String → String → Setting
new_setting now actor key value = record {
  setting_key = key;
  setting_value = value;
  updated_by = actor;
  updated_at = now;
}

pub set_setting : ℕ → String → String → String → Action Contents (Unit {0})
set_setting now actor key value = modify (put_setting (new_setting now actor key value))

-- The rounds of the loop over the settings; each takes the token of its event. Too few tokens are a
-- failure of the random numbers.
write_settings : ℕ → String → List String → List (String × String) → Action Contents (Unit {0})
write_settings now actor tokens [] = pure tt
write_settings now actor [] ((key, value) ∷ settings) = fail unavailable
write_settings now actor (token ∷ tokens) ((key, value) ∷ settings) =
    let rest = write_settings now actor tokens settings in
    (do
      modify (put_setting (new_setting now actor key value))
      runtime_event_in_tx now token "" "system-settings" (setting_written key now)
      rest)

pub set_settings_audited :
    ℕ
    → String
    → List String
    → String
    → List (String × String)
    → AuditContext
    → Action Contents (Unit {0})
unfolding write_settings
set_settings_audited now audit_id tokens actor settings audit = transaction do
  write_settings now actor tokens settings
  audit_contents now audit_id (record audit { metadata = settings_written (length settings) })
  commit tt
