-- ===== src/Store/Cloud/Register.antt =====
-- What a client may rely on: a user's document is a register with a version, and a write replaces the
-- version that it names, or does nothing.
use classing_backend.Base.{
  ℕ, ◌+◌, ◌≤◌, ◌≡◌, refl, String, Bool, true, false, ◌&&◌, Option, none, some, arith, ltb,
  if◌then◌else◌, ◌==◌, nat_eq, string_eq, inl, inr, Option-cases,
}
use classing_backend.Base.Int.{ℤ, is_nat}
use classing_backend.Base.Table.{
  count_where, select_one_counted, count_where_mono, select_one-none, select_one_uncounted,
  select_one_passes,
}
use classing_backend.Store.Core.{conflict, Error, Result, ok, err}
use classing_backend.Store.Rows.{AuditContext}
use classing_backend.Store.ContentRows.{CloudDocument, IdempotencyRecord, Contents}
use classing_backend.Store.Accounts.{audit_in_tx}
use classing_backend.Store.Events.{audit_contents, runtime_event_in_tx, event_id}
use classing_backend.Store.Cloud.{
  find_document, write_document, record_write, note_write, add_document, replace_document, add_key,
  Written, written, replayed, put_cloud_document_idempotent,
}
use classing_backend.Store.Cloud.Versions.{version_at, next_document}
use classing_backend.Store.Cloud.Writes.{put-Committed}

-- The text that a user's devices see, and its version.
abbrev pub Register : Type 0
Register = Option (String × ℕ)

abbrev pub register_at : String → Contents → Register
register_at user d = elim (find_document user d) [
  | none ↦ none
  | some c ↦ some (c.payload, c.version)
]

abbrev pub register_version : Register → ℕ
register_version none = 0
register_version (some (payload, version)) = version

-- A write into a register: refused unless it names the current version.
abbrev pub put_register : String → ℤ → Register → Option Register
put_register payload expected r =
    if is_nat expected (register_version r)
    then some (some (payload, register_version r + 1))
    else none

-- What the result of a write says of the registers.
abbrev pub RegisterStep : String → String → ℤ → Result Written → Contents → Contents → Type 0
RegisterStep user payload expected (ok (written item)) d d' =
    (put_register payload expected (register_at user d) ≡ some (register_at user d'))
    × ((other : String) → (user == other) ≡ false → register_at other d' ≡ register_at other d)
RegisterStep user payload expected (ok (replayed answer)) d d' = d' ≡ d
RegisterStep user payload expected (err e) d d' = d' ≡ d

module _ (json_valid : String → Bool) (now : ℕ) (audit_id token user payload : String)
    (expected : ℤ) (key request_hash : String) (audit : AuditContext) (d : Contents) where
  abbrev put_result : Result Written × Contents
  put_result =
      put_cloud_document_idempotent json_valid now audit_id token user payload expected key
        request_hash audit d

  put_refines-written :
      (item : CloudDocument) (d' : Contents)
      → put_result ≡ (ok (written item), d')
      → RegisterStep user payload expected (ok (written item)) d d'
  put_refines-written item d' run =
      let c =
        put-Committed json_valid now audit_id token user payload expected key request_hash audit d
          d' item run in
      (
        ground (
          arith, c.stored.expected_current, c.stored.next, c.stored.stored, c.recorded.documents,
        ),
        λ other o. ground (arith, c.stored.others other o, c.recorded.documents),
      )

  put_refines-replayed :
      (answer : IdempotencyRecord) (d' : Contents)
      → put_result ≡ (ok (replayed answer), d')
      → d' ≡ d
  unfolding put_cloud_document_idempotent
  put_refines-replayed answer d' run = ground arith

  put_refines-err : (e : Error) (d' : Contents) → put_result ≡ (err e, d') → d' ≡ d
  unfolding put_cloud_document_idempotent
  put_refines-err e d' run = ground arith

  put_refines_of :
      (r : Result Written) (d' : Contents)
      → put_result ≡ (r, d')
      → RegisterStep user payload expected r d d'
  put_refines_of (ok (written item)) d' run = put_refines-written item d' run
  put_refines_of (ok (replayed answer)) d' run = put_refines-replayed answer d' run
  put_refines_of (err e) d' run = put_refines-err e d' run

  -- Every write, whatever its key, its version and the rows of the tables are, either commits, and then
  -- replaces the user's register by the payload under the next version, where the version that the
  -- write expects is the current one, and leaves the registers of all other users alone; or replays a
  -- stored answer or fails, and then changes nothing.
  pub put_refines : RegisterStep user payload expected put_result.0 d put_result.1
  put_refines = put_refines_of put_result.0 put_result.1 refl

-- The primary key of cloud_documents.
abbrev pub OneDocument : Contents → Type 0
OneDocument d = (u : String) → count_where (λ c. c.user_id == u) d.documents ≤ 1

-- Ids that no row has yet.
pub record FreshIds (now : ℕ) (audit_id token user key : String) (d : Contents) : Type 0 where
  pub audit_fresh : count_where (λ l. l.id == audit_id) d.accounts.audit_logs ≡ 0
  pub event_fresh : count_where (λ e. e.id == event_id now token) d.events ≡ 0
  pub key_fresh : count_where (λ r. r.key_value == key && r.user_id == user) d.idempotency_keys ≡ 0

-- Only the documents may differ.
record OnlyDocuments (d d' : Contents) : Type 0 where
  accounts : d'.accounts ≡ d.accounts
  events : d'.events ≡ d.events
  keys : d'.idempotency_keys ≡ d.idempotency_keys

module _ (now : ℕ) (user payload : String) (expected : ℤ) (d : Contents) (one : OneDocument d) where
  write_document-result : (write_document now user payload expected d).0 ≡ (
      if is_nat expected (version_at user d)
      then ok (next_document now user payload d)
      else err conflict)
  unfolding write_document add_document replace_document
  write_document-result = elim (Option-cases (find_document user d)) [
    | inl e ↦ ground (arith, select_one-none (λ c. c.user_id == user) d.documents e)
    | inr (current, e) ↦ ground (
      arith,
      select_one_counted (λ c. c.user_id == user)
          (λ c. c.user_id == user && c.version == current.version) d.documents current e,
      select_one_passes (λ c. c.user_id == user) d.documents current e,
      count_where_mono (λ c. c.user_id == user && c.version == current.version)
          (λ c. c.user_id == user) d.documents (λ c h. ground arith),
      one user,
    )
  ]

  write_document-OnlyDocuments : OnlyDocuments d (write_document now user payload expected d).1
  unfolding write_document add_document replace_document
  write_document-OnlyDocuments = elim (Option-cases (find_document user d)) [
    | inl e ↦ ground arith
    | inr (current, e) ↦ ground arith
  ]

module _ (now : ℕ) (audit_id token user payload key request_hash : String) (audit : AuditContext)
    (item : CloudDocument) (d : Contents) (fresh : FreshIds now audit_id token user key d) where
  record_write-ok :
      (record_write now audit_id token user payload key request_hash audit item d).0 ≡ ok tt
  unfolding record_write note_write add_key audit_contents audit_in_tx runtime_event_in_tx
  record_write-ok = ground (arith, fresh.audit_fresh, fresh.event_fresh, fresh.key_fresh)

-- The ids are as new after the document's row.
FreshIds-OnlyDocuments :
    (now : ℕ) (audit_id token user key : String) (d d' : Contents)
    → OnlyDocuments d d'
    → FreshIds now audit_id token user key d
    → FreshIds now audit_id token user key d'
FreshIds-OnlyDocuments now audit_id token user key d d' o f = record {
  audit_fresh = rw o.accounts f.audit_fresh;
  event_fresh = rw o.events f.event_fresh;
  key_fresh = rw o.keys f.key_fresh;
}

-- A write decides by the version alone: where the payload is JSON, no user has two documents and the
-- ids are new, it commits the next document exactly if it expects the current version, which is 0
-- where there is no document, and is refused with Conflict otherwise.
pub put_decides :
    (json_valid : String → Bool) (now : ℕ) (audit_id token user payload : String) (expected : ℤ)
    (key request_hash : String) (audit : AuditContext) (d : Contents)
    → json_valid payload ≡ true
    → OneDocument d
    → FreshIds now audit_id token user key d
    → (put_cloud_document_idempotent json_valid now audit_id token user payload expected key
        request_hash audit d).0
      ≡ (if is_nat expected (version_at user d)
          then ok (written (next_document now user payload d))
          else err conflict)
unfolding put_cloud_document_idempotent
put_decides json_valid now audit_id token user payload expected key request_hash audit d valid one
      fresh =
    let d₁ = (write_document now user payload expected d).1 in
    let item = next_document now user payload d in
    let fresh' =
      FreshIds-OnlyDocuments now audit_id token user key d d₁
        (write_document-OnlyDocuments now user payload expected d one) fresh in
    ground (
      arith,
      write_document-result now user payload expected d one,
      record_write-ok now audit_id token user payload key request_hash audit item d₁ fresh',
      select_one_uncounted (λ r. r.key_value == key && r.user_id == user)
          (λ r. r.user_id == user && r.key_value == key && ltb now r.expires_at) d.idempotency_keys
          (λ r e. ground arith) fresh.key_fresh,
    )
