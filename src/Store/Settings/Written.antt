-- ===== src/Store/Settings/Written.antt =====
-- What the settings read as after an administrator has saved them.
use classing_backend.Base.{
  ℕ, ◌≡◌, refl, ◌∙◌, ap, sym, String, true, List, [], ◌∷◌, arith, ltb, if◌then◌else◌, ◌==◌, nat_eq,
  string_eq, inl, inr, Bool-cases, beq_refl, eq_of_beq,
}
use text.Mathlib.TextEquality.{eq_iff}
use classing_backend.Base.Lists.{length}
use classing_backend.Base.Table.{
  count_where, select_one-overwrite_same, select_one-overwrite_other, select_one-insert_new,
  select_one-insert_other, select_one_uncounted,
}
use classing_backend.Store.Core.{ok}
use classing_backend.Store.Rows.{AuditContext, settings_written}
use classing_backend.Store.ContentRows.{Setting, setting_written, Contents}
use classing_backend.Store.Events.{audit_contents, runtime_event_in_tx}
use classing_backend.Store.Settings.{
  setting, put_setting, new_setting, write_settings, set_settings_audited,
}

-- The settings as a function of the key, and the same with one value changed or a list of values.
abbrev pub changed_by :
    List (String × String) → (String → String → String) → String → String → String
changed_by [] read key fallback = read key fallback
changed_by ((k, v) ∷ settings) read key fallback =
    changed_by settings (λ q f. if k == q then v else read q f) key fallback

put_setting-read :
    (row : Setting) (key fallback : String) (d : Contents)
    → setting key fallback (put_setting row d)
      ≡ (if row.setting_key == key then row.setting_value else setting key fallback d)
unfolding setting
put_setting-read row key fallback d =
    let p = λ (s : Setting). s.setting_key == row.setting_key in
    let q = λ (s : Setting). s.setting_key == key in
    elim (Bool-cases (ltb 0 (count_where p d.settings))) [
      | inl there ↦ elim (Bool-cases (row.setting_key == key)) [
        | inl same ↦ ground (
          arith,
          select_one-overwrite_same p q row d.settings (λ s. alike same s),
          beq_refl row.setting_key,
        )
        | inr other ↦ ground (
          arith,
          select_one-overwrite_other p q row d.settings (λ s h. ground (
            arith,
            eq_iff s.setting_key key,
            eq_iff row.setting_key key,
            eq_iff s.setting_key row.setting_key,
          )),
        )
      ]
      | inr absent ↦ elim (Bool-cases (row.setting_key == key)) [
        | inl same ↦ ground (
          arith,
          select_one-insert_new q d.settings row,
          select_one_uncounted p q d.settings (λ s h. ground (
            arith,
            eq_iff s.setting_key key,
            eq_iff row.setting_key key,
            eq_iff s.setting_key row.setting_key,
          )),
        )
        | inr other ↦ ground (arith, select_one-insert_other q d.settings row)
      ]
    ]
  where
    alike :
        (row.setting_key == key) ≡ true
        → (s : Setting) → (s.setting_key == key) ≡ (s.setting_key == row.setting_key)
    alike same s = ap (λ k. s.setting_key == k) (sym (eq_of_beq row.setting_key key same))

runtime_event-read :
    (now : ℕ) (token user event_type k : String) (at : ℕ) (key fallback : String) (d : Contents)
    → setting key fallback
        (runtime_event_in_tx now token user event_type (setting_written k at) d).1
      ≡ setting key fallback d
unfolding runtime_event_in_tx setting
runtime_event-read now token user event_type k at key fallback d = ground arith

audit-read :
    (now : ℕ) (id : String) (audit : AuditContext) (key fallback : String) (d : Contents)
    → setting key fallback (audit_contents now id audit d).1 ≡ setting key fallback d
unfolding audit_contents setting
audit-read now id audit key fallback d = refl

changed_by_congr :
    (settings : List (String × String)) (f g : String → String → String)
    → ((key fallback : String) → f key fallback ≡ g key fallback)
    → (key fallback : String)
    → changed_by settings f key fallback ≡ changed_by settings g key fallback
changed_by_congr [] f g h key fallback = h key fallback
changed_by_congr ((k, v) ∷ settings) f g h key fallback =
    changed_by_congr settings (λ q b. if k == q then v else f q b)
      (λ q b. if k == q then v else g q b) (λ q b. ap (λ r. if k == q then v else r) (h q b)) key
      fallback

write_settings-read :
    (now : ℕ) (actor : String) (tokens : List String) (settings : List (String × String))
    (d d' : Contents)
    → write_settings now actor tokens settings d ≡ (ok tt, d')
    → (key fallback : String)
    → setting key fallback d' ≡ changed_by settings (λ k f. setting k f d) key fallback
unfolding write_settings
write_settings-read now actor tokens [] d d' run key fallback =
    ap (setting key fallback) (ground arith)
write_settings-read now actor [] (s ∷ settings) d d' run key fallback = absurd (ground arith)
write_settings-read now actor (token ∷ tokens) ((k, v) ∷ settings) d d' run key fallback =
    let put = put_setting (new_setting now actor k v) d in
    let d₁ = (runtime_event_in_tx now token "" "system-settings" (setting_written k now) put).1 in
    let rest : write_settings now actor tokens settings d₁ ≡ (ok tt, d') = ground arith in
    write_settings-read now actor tokens settings d₁ d' rest key fallback
    ∙ changed_by_congr settings (λ q f. setting q f d₁) (λ q f. if k == q then v else setting q f d)
        (λ q f.
          runtime_event-read now token "" "system-settings" k now q f put
          ∙ put_setting-read (new_setting now actor k v) q f d)
        key fallback

-- Saved settings read back: after an administrator has saved a list of settings, every key of the list
-- reads as its last value there, and every other key as before.
pub saved-read :
    (now : ℕ) (audit_id : String) (tokens : List String) (actor : String)
    (settings : List (String × String)) (audit : AuditContext) (d d' : Contents)
    (key fallback : String)
    → set_settings_audited now audit_id tokens actor settings audit d ≡ (ok tt, d')
    → setting key fallback d' ≡ changed_by settings (λ k f. setting k f d) key fallback
unfolding set_settings_audited
saved-read now audit_id tokens actor settings audit d d' key fallback run =
    let d₁ = (write_settings now actor tokens settings d).1 in
    let wrote : write_settings now actor tokens settings d ≡ (ok tt, d₁) = ground arith in
    let same : d'
        ≡ (audit_contents now audit_id
            (record audit { metadata = settings_written (length settings) }) d₁).1 =
      ground arith in
    ap (setting key fallback) same
    ∙ (audit-read now audit_id (record audit { metadata = settings_written (length settings) }) key
          fallback d₁
        ∙ write_settings-read now actor tokens settings d d₁ wrote key fallback)
