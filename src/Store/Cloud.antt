-- ===== src/Store/Cloud.antt =====
-- internal/store/cloud.go: the document that a user's devices share, with its version, and the keys
-- under which the answers of writes are kept. Whether a text is JSON is an argument.
pub mod Versions
pub mod Writes
pub mod Register
mod Tests
use Prim.Native.String.{◌++◌ as concat}
use classing_backend.Base.{
  ℕ, ◌+◌, ◌*◌, String, Bool, not, ◌&&◌, ◌||◌, Option, none, some, List, ltb, if◌then◌else◌, ◌==◌,
  nat_eq, string_eq,
}
use classing_backend.Base.Int.{ℤ, is_positive, is_nat}
use classing_backend.Base.Table.{select_one, count_where, update_where}
use classing_backend.Base.Text.{byte_count}
use classing_backend.Base.Decimal.{format_int}
use classing_backend.Store.Core.{
  conflict, invalid, idempotency_key_reused, database, duplicate_key, no_rows, normalize_db_error,
  Result, ok, err, Action, pure, fail, gets, or_fail, ◌>>=◌, ◌>>◌, fail_if, modify, transaction,
  commit, insert_row,
}
use classing_backend.Store.Rows.{AuditContext, cloud_written}
use classing_backend.Store.ContentRows.{
  CloudDocument, IdempotencyRecord, document_written, Contents,
}
use classing_backend.Store.Events.{audit_contents, runtime_event_in_tx}

abbrev pub find_document : String → Contents → Option CloudDocument
find_document user d = select_one (λ c. c.user_id == user) d.documents

unfoldable pub cloud_document : String → Action Contents CloudDocument
cloud_document user = do
  found ← gets (find_document user)
  or_fail found (normalize_db_error no_rows)

abbrev pub new_document : ℕ → String → String → CloudDocument
new_document now user payload = record {
  user_id = user;
  payload = payload;
  version = 1;
  updated_at = now;
}

-- INSERT INTO cloud_documents: one row for a user.
pub add_document : CloudDocument → Action Contents (Unit {0})
add_document row d = elim (insert_row (λ c. c.user_id == row.user_id) row d.documents) [
  | none ↦ fail (normalize_db_error duplicate_key) d
  | some rows ↦ (ok tt, record d { documents = rows })
]

-- UPDATE cloud_documents WHERE user_id = ? AND version = ?, which has to affect one row.
pub replace_document : ℕ → String → String → ℕ → Action Contents (Unit {0})
replace_document now user payload version = do
  affected ← gets (λ d. count_where (λ c. c.user_id == user && c.version == version) d.documents)
  modify λ d. record d {
    documents =
        update_where (λ c. c.user_id == user && c.version == version)
          (λ c. record c { payload = payload; version = c.version + 1; updated_at = now })
          d.documents;
  }
  fail_if (not (affected == 1)) conflict

pub put_cloud_document : (String → Bool) → ℕ → String → String → ℤ → Action Contents CloudDocument
put_cloud_document json_valid now user payload expected = do
  fail_if (not (json_valid payload)) invalid
  found ← gets (find_document user)
  elim found [
    | none ↦ (do
      fail_if (is_positive expected) conflict
      add_document (new_document now user payload)
      pure (new_document now user payload))
    | some current ↦ (do
      fail_if (is_positive expected && not (is_nat expected current.version)) conflict
      replace_document now user payload current.version
      cloud_document user)
  ]

-- A record of the key that has not run out.
abbrev pub find_key : ℕ → String → String → Contents → Option IdempotencyRecord
find_key now user key d =
    select_one (λ r. r.user_id == user && r.key_value == key && ltb now r.expires_at)
      d.idempotency_keys

-- INSERT INTO idempotency_keys: the key and the user are unique together.
pub add_key : IdempotencyRecord → Action Contents (Unit {0})
add_key row d =
    elim (insert_row (λ r. r.key_value == row.key_value && r.user_id == row.user_id) row
      d.idempotency_keys) [
        | none ↦ fail (normalize_db_error duplicate_key) d
        | some rows ↦ (ok tt, record d { idempotency_keys = rows })
      ]

-- The new document, or the current one with the next version.
pub write_document : ℕ → String → String → ℤ → Action Contents CloudDocument
write_document now user payload expected = do
  found ← gets (find_document user)
  elim found [
    | none ↦ (do
      fail_if (not (is_nat expected 0)) conflict
      add_document (new_document now user payload)
      pure (new_document now user payload))
    | some current ↦ (do
      fail_if (not (is_nat expected current.version)) conflict
      replace_document now user payload current.version
      pure (record (new_document now user payload) { version = current.version + 1 }))
  ]

abbrev pub response_body : ℕ → String
response_body version = concat "{\"success\":true,\"version\":" (concat (format_int version) "}")

abbrev pub key_record : ℕ → String → String → String → ℕ → IdempotencyRecord
key_record now user key request_hash version = record {
  key_value = key;
  user_id = user;
  request_hash = request_hash;
  response_code = 200;
  response_body = response_body version;
  expires_at = now + 24 * 60 * 60 * 1000;
}

-- The audit row and the event of a write.
pub note_write :
    ℕ
    → String
    → String
    → String
    → String
    → AuditContext
    → CloudDocument
    → Action Contents (Unit {0})
note_write now audit_id token user payload audit item = do
  audit_contents now audit_id
      (record audit { metadata = cloud_written item.version (byte_count payload) })
  runtime_event_in_tx now token user "client-settings"
      (document_written item.version item.updated_at)

-- What is written after the document: first the answer under the key, if there is one.
pub record_write :
    ℕ
    → String
    → String
    → String
    → String
    → String
    → String
    → AuditContext
    → CloudDocument
    → Action Contents (Unit {0})
record_write now audit_id token user payload key request_hash audit item = do
  if key == "" then pure tt else add_key (key_record now user key request_hash item.version)
  note_write now audit_id token user payload audit item

-- The document that was written, or the stored answer of an earlier write with the key.
pub data Written : Type 0 where
  written : CloudDocument → Written
  replayed : IdempotencyRecord → Written

-- The key's record is looked up first; its answer is returned before anything is written.
pub put_cloud_document_idempotent :
    (String → Bool)
    → ℕ
    → String
    → String
    → String
    → String
    → ℤ
    → String
    → String
    → AuditContext
    → Action Contents Written
put_cloud_document_idempotent json_valid now audit_id token user payload expected key request_hash
      audit =
    do
      fail_if (not (json_valid payload)) invalid
      transaction do
        existing ← gets (λ d. if key == "" then none else find_key now user key d)
        elim existing [
          | some kept ↦ (do
            fail_if (not (kept.request_hash == request_hash)) idempotency_key_reused
            commit (replayed kept))
          | none ↦ (do
            item ← write_document now user payload expected
            record_write now audit_id token user payload key request_hash audit item
            commit (written item))
        ]

pub idempotency : ℕ → String → String → Action Contents IdempotencyRecord
idempotency now user key = do
  found ← gets (find_key now user key)
  or_fail found (normalize_db_error no_rows)

-- INSERT ... ON CONFLICT(key_value, user_id) DO NOTHING
pub save_idempotency : IdempotencyRecord → Action Contents (Unit {0})
save_idempotency row d =
    elim (insert_row (λ r. r.key_value == row.key_value && r.user_id == row.user_id) row
      d.idempotency_keys) [
        | none ↦ (ok tt, d)
        | some rows ↦ (ok tt, record d { idempotency_keys = rows })
      ]
