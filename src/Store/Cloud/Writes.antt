-- ===== src/Store/Cloud/Writes.antt =====
-- A write of a document with all that it records, and what a repetition of its key gets.
use classing_backend.Base.{
  ℕ, ◌+◌, ◌*◌, ◌<◌, ◌≡◌, refl, ◌∙◌, String, Bool, true, false, ◌&&◌, some, arith, ltb,
  if◌then◌else◌, ◌==◌, nat_eq, string_eq, inl, inr, Bool-cases, beq_refl,
}
use classing_backend.Base.Int.{ℤ}
use classing_backend.Base.Table.{select_one-insert_new, select_one_uncounted}
use classing_backend.Base.Text.{byte_count}
use classing_backend.Store.Core.{idempotency_key_reused, ok, err}
use classing_backend.Store.Rows.{AuditContext, cloud_written}
use classing_backend.Store.ContentRows.{CloudDocument, Contents, document_written}
use classing_backend.Store.Events.{audit_contents, runtime_event_in_tx}
use classing_backend.Store.Cloud.{
  write_document, record_write, note_write, add_key, written, replayed,
  put_cloud_document_idempotent, find_key, key_record,
}
use classing_backend.Store.Cloud.Versions.{Stored, write_document-Stored}

-- The tables of documents and keys are the same.
pub record SameDocuments (d d' : Contents) : Type 0 where
  pub documents : d'.documents ≡ d.documents
  pub keys : d'.idempotency_keys ≡ d.idempotency_keys

audit_contents-SameDocuments :
    (now : ℕ) (id : String) (audit : AuditContext) (d : Contents)
    → SameDocuments d (audit_contents now id audit d).1
unfolding audit_contents
audit_contents-SameDocuments now id audit d = record { documents = refl; keys = refl }

runtime_event_in_tx-SameDocuments :
    (now : ℕ) (token user event_type : String) (version at : ℕ) (d : Contents)
    → SameDocuments d
        (runtime_event_in_tx now token user event_type (document_written version at) d).1
unfolding runtime_event_in_tx
runtime_event_in_tx-SameDocuments now token user event_type version at d = ground arith

-- What a finished write has recorded.
pub record Recorded (now : ℕ) (user key request_hash : String) (item : CloudDocument)
    (d d' : Contents) : Type 0 where
  pub documents : d'.documents ≡ d.documents
  pub answer :
      (later : ℕ)
      → (key == "") ≡ false
      → later < now + 24 * 60 * 60 * 1000
      → find_key later user key d' ≡ some (key_record now user key request_hash item.version)

module _ (now : ℕ) (audit_id token user payload key request_hash : String) (audit : AuditContext)
    (item : CloudDocument) where
  add_key-found :
      (d d' : Contents) (later : ℕ)
      → add_key (key_record now user key request_hash item.version) d ≡ (ok tt, d')
      → later < now + 24 * 60 * 60 * 1000
      → find_key later user key d' ≡ some (key_record now user key request_hash item.version)
  unfolding add_key
  add_key-found d d' later run h = ground (
    arith,
    select_one-insert_new (λ r. r.user_id == user && r.key_value == key && ltb later r.expires_at)
        d.idempotency_keys (key_record now user key request_hash item.version),
    select_one_uncounted (λ r. r.key_value == key && r.user_id == user)
        (λ r. r.user_id == user && r.key_value == key && ltb later r.expires_at) d.idempotency_keys
        (λ r e. ground arith),
    beq_refl user,
    beq_refl key,
  )

  note_write-SameDocuments :
      (d d' : Contents)
      → note_write now audit_id token user payload audit item d ≡ (ok tt, d')
      → SameDocuments d d'
  unfolding note_write
  note_write-SameDocuments d d' run =
      let noted = record audit { metadata = cloud_written item.version (byte_count payload) } in
      let d₁ = (audit_contents now audit_id noted d).1 in
      ground (
        arith,
        audit_contents-SameDocuments now audit_id noted d,
        runtime_event_in_tx-SameDocuments now token user "client-settings" item.version
            item.updated_at d₁,
      )

  add_key-documents :
      (d : Contents)
      → (add_key (key_record now user key request_hash item.version) d).1.documents ≡ d.documents
  unfolding add_key
  add_key-documents d = ground arith

  record_write-Recorded :
      (d d' : Contents)
      → record_write now audit_id token user payload key request_hash audit item d ≡ (ok tt, d')
      → Recorded now user key request_hash item d d'
  unfolding record_write
  record_write-Recorded d d' run = elim (Bool-cases (key == "")) [
    | inl e ↦
        let s = note_write-SameDocuments d d' (ground arith) in
        record { documents = s.documents; answer = λ later k. cc }
    | inr e ↦
        let d₁ = (add_key (key_record now user key request_hash item.version) d).1 in
        let added : add_key (key_record now user key request_hash item.version) d ≡ (ok tt, d₁) =
          ground arith in
        let s = note_write-SameDocuments d₁ d' (ground arith) in
        record {
          documents = s.documents ∙ add_key-documents d;
          answer = λ later k h. ground (arith, s.keys, add_key-found d d₁ later added h);
        }
  ]

-- What a write that is not a repetition has done.
pub record Committed (now : ℕ) (user payload : String) (expected : ℤ) (key request_hash : String)
    (item : CloudDocument) (d d' : Contents) : Type 0 where
  pub between : Contents
  pub stored : Stored now user payload expected d item between
  pub recorded : Recorded now user key request_hash item between d'

module _ (json_valid : String → Bool) (now : ℕ) (audit_id token user payload : String)
    (expected : ℤ) (key request_hash : String) (audit : AuditContext) (d d' : Contents)
    (item : CloudDocument)
    (run : put_cloud_document_idempotent json_valid now audit_id token user payload expected key
        request_hash audit d
      ≡ (ok (written item), d')) where
  pub put-Committed : Committed now user payload expected key request_hash item d d'
  unfolding put_cloud_document_idempotent
  put-Committed =
      let d₁ = (write_document now user payload expected d).1 in
      let item' = (write_document now user payload expected d).0 in
      let wrote : write_document now user payload expected d ≡ (ok item, d₁) = ground arith in
      record {
        between = d₁;
        stored = write_document-Stored now user payload expected d d₁ item wrote;
        recorded =
            record_write-Recorded now audit_id token user payload key request_hash audit item d₁ d'
              (ground arith);
      }

  -- A write is made once for a key: for a day after a write with a key, which is not empty, any write of
  -- the user with the key and a JSON payload, on the tables that the first left, changes nothing; it
  -- gets the stored answer if its request has the same hash, and is refused otherwise.
  pub retry_replays :
      (later : ℕ) (audit_id' token' payload' : String) (expected' : ℤ) (request_hash' : String)
      (audit' : AuditContext)
      → (key == "") ≡ false
      → later < now + 24 * 60 * 60 * 1000
      → json_valid payload' ≡ true
      → put_cloud_document_idempotent json_valid later audit_id' token' user payload' expected' key
          request_hash' audit' d'
        ≡ (
          if request_hash == request_hash'
              then ok (replayed (key_record now user key request_hash item.version))
              else err idempotency_key_reused,
          d',
        )
  unfolding put_cloud_document_idempotent
  retry_replays later audit_id' token' payload' expected' request_hash' audit' k h v =
      ground (arith, put-Committed.recorded.answer later k h)
