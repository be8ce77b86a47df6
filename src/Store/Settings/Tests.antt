-- ===== src/Store/Settings/Tests.antt =====
-- Runs of the settings of internal/store/admin.go.
use classing_backend.Base.{◌≡◌, refl, ◌∷◌, [], string_eq}
use classing_backend.Base.Decimal.{format_padded}
use classing_backend.Store.Accounts.{audit_in_tx}
use classing_backend.Store.Core.{ok, err, invalid}
use classing_backend.Store.ContentRows.{Contents}
use classing_backend.Store.Events.{audit_contents, runtime_event_in_tx, event_id}
use classing_backend.Store.Fixtures.{contents, audit}
use classing_backend.Store.Settings.{
  setting, set_setting, set_settings_audited, write_settings, cleanup_audit_logs,
}
use classing_backend.Store.Settings.Written.{saved-read}

abbrev saved : Contents
saved =
    (set_settings_audited 5 "u" ("t1" ∷ "t2" ∷ []) "a" (("site", "Classing") ∷ ("mail", "on") ∷ [])
      audit contents).1

saves :
    set_settings_audited 5 "u"
      ("t1" ∷ "t2" ∷ [])
      "a"
      (("site", "Classing") ∷ ("mail", "on") ∷ [])
      audit
      contents
    ≡ (ok tt, saved)
unfolding set_settings_audited write_settings runtime_event_in_tx audit_contents audit_in_tx
    format_padded
saves = refl

saved-read_example : setting "site" "" saved ≡ "Classing"
saved-read_example =
    saved-read 5 "u" ("t1" ∷ "t2" ∷ []) "a" (("site", "Classing") ∷ ("mail", "on") ∷ []) audit
      contents saved "site" "" saves

first_event : event_id 5 "t1" ≡ "evt_0000000000005_t1"
unfolding format_padded
first_event = refl

sets : setting "site" "" (set_setting 6 "a" "site" "New" saved).1 ≡ "New"
unfolding setting set_setting set_settings_audited write_settings runtime_event_in_tx audit_contents
    audit_in_tx format_padded
sets = refl

keeps_a_day : (cleanup_audit_logs 86400006 1 saved).0 ≡ ok 1
unfolding cleanup_audit_logs set_settings_audited write_settings runtime_event_in_tx audit_contents
    audit_in_tx format_padded
keeps_a_day = refl

no_days : (cleanup_audit_logs 86400006 0 saved).0 ≡ err invalid
unfolding cleanup_audit_logs
no_days = refl
