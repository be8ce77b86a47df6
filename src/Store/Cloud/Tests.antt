-- ===== src/Store/Cloud/Tests.antt =====
-- Runs of internal/store/cloud.go.
use classing_backend.Base.{◌≡◌, refl, String, Bool, not, ◌==◌, string_eq, nat_eq, arith}
use classing_backend.Base.Int.{pos}
use classing_backend.Base.Decimal.{format_int}
use classing_backend.Store.Core.{ok, err, conflict, idempotency_key_reused}
use classing_backend.Store.Accounts.{audit_in_tx}
use classing_backend.Store.Events.{audit_contents, runtime_event_in_tx}
use classing_backend.Store.ContentRows.{Contents}
use classing_backend.Store.Fixtures.{audit, contents}
use classing_backend.Store.Cloud.{
  write_document, record_write, note_write, add_document, replace_document, add_key, written,
  put_cloud_document_idempotent, put_cloud_document, key_record, new_document, idempotency,
  save_idempotency, cloud_document,
}
use classing_backend.Store.Cloud.Versions.{next_document}
use classing_backend.Store.Cloud.Writes.{retry_replays}
use classing_backend.Store.Cloud.Register.{RegisterStep, put_refines, put_decides}

-- Every text but the empty one.
abbrev not_empty : String → Bool
not_empty s = not (s == "")

abbrev saved : Contents
saved =
    (put_cloud_document_idempotent not_empty 5 "u" "t" "b" "{}" (pos 0) "k" "h" audit contents).1

saves :
    put_cloud_document_idempotent not_empty 5 "u" "t" "b" "{}" (pos 0) "k" "h" audit contents
    ≡ (ok (written (new_document 5 "b" "{}")), saved)
unfolding put_cloud_document_idempotent write_document add_document record_write note_write add_key
    audit_contents audit_in_tx runtime_event_in_tx
saves = refl

body : (key_record 5 "b" "k" "h" 12).response_body ≡ "{\"success\":true,\"version\":12}"
unfolding format_int
body = refl

retry_replays_example :
    put_cloud_document_idempotent not_empty 9 "u2" "t2" "b" "[]" (pos 1) "k" "other" audit saved
    ≡ (err idempotency_key_reused, saved)
retry_replays_example =
    retry_replays not_empty 5 "u" "t" "b" "{}" (pos 0) "k" "h" audit contents saved
      (new_document 5 "b" "{}") saves 9 "u2" "t2" "[]" (pos 1) "other" audit refl (omega arith) refl

put_refines_example :
    RegisterStep "b" "[]"
      (pos 1)
      (put_cloud_document_idempotent not_empty 9 "u2" "t2" "b" "[]" (pos 1) "" "" audit saved).0
      saved
      (put_cloud_document_idempotent not_empty 9 "u2" "t2" "b" "[]" (pos 1) "" "" audit saved).1
put_refines_example = put_refines not_empty 9 "u2" "t2" "b" "[]" (pos 1) "" "" audit saved

put_decides_example :
    (put_cloud_document_idempotent not_empty 5 "u" "t" "b" "{}" (pos 3) "k" "h" audit contents).0
    ≡ err conflict
put_decides_example =
    put_decides not_empty 5 "u" "t" "b" "{}" (pos 3) "k" "h" audit contents refl (λ u. omega arith)
      (record { audit_fresh = refl; event_fresh = refl; key_fresh = refl })

overwrites :
    (put_cloud_document not_empty 7 "b" "[]" (pos 0) saved).0 ≡ ok (next_document 7 "b" "[]" saved)
unfolding put_cloud_document replace_document cloud_document put_cloud_document_idempotent
    write_document add_document record_write note_write add_key audit_contents audit_in_tx
    runtime_event_in_tx
overwrites = refl

keeps_first : (save_idempotency (key_record 5 "b" "k" "other" 2) saved).1 ≡ saved
unfolding save_idempotency put_cloud_document_idempotent write_document add_document record_write
    note_write add_key audit_contents audit_in_tx runtime_event_in_tx
keeps_first = refl

reads : (idempotency 6 "b" "k" saved).0 ≡ ok (key_record 5 "b" "k" "h" 1)
unfolding idempotency put_cloud_document_idempotent write_document add_document record_write
    note_write add_key audit_contents audit_in_tx runtime_event_in_tx
reads = refl
