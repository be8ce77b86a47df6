-- ===== src/Store/Releases.antt =====
-- internal/store/releases.go, the releases of the applications: a draft is uploaded, published, and is
-- then the latest of its channel or is not.
pub mod Latest
mod Tests
use classing_backend.Base.{
  ℕ, String, Bool, true, false, not, ◌&&◌, ◌||◌, Option, none, some, List, leb, ltb, if◌then◌else◌,
  ◌==◌, nat_eq, string_eq,
}
use classing_backend.Base.Int.{ℤ, pos, leb_ℤ}
use classing_backend.Base.Order.{order_by, page, head?}
use classing_backend.Base.Table.{select_one, select_where, count_where, update_where, delete_where}
use classing_backend.Base.Text.{trim_space, to_upper}
use classing_backend.Store.Core.{
  not_found, invalid, duplicate_key, no_rows, normalize_db_error, Result, ok, err, Action, pure,
  fail, gets, or_fail, ◌>>=◌, ◌>>◌, fail_if, modify, transaction, commit, insert_row,
}
use classing_backend.Store.Rows.{AuditContext}
use classing_backend.Store.ContentRows.{as_flag, AppRelease, Contents}
use classing_backend.Store.Events.{audit_contents}
use classing_backend.Store.Announcements.{valid_platform}

abbrev pub valid_channel : String → Bool
valid_channel c = c == "STABLE" || c == "BETA"

pub normalize_channel : String → String
normalize_channel value = let v = to_upper (trim_space value) in if v == "" then "STABLE" else v

abbrev pub status_draft : String
status_draft = "DRAFT"

abbrev pub status_published : String
status_published = "PUBLISHED"

abbrev pub is_valid_release : AppRelease → Bool
is_valid_release r =
    not (r.id == "")
    && valid_platform r.platform
    && valid_channel r.channel
    && ltb 0 r.version_code
    && leb_ℤ (pos 0) r.min_supported_version_code
    && not (r.version_name == "")
    && not (r.title == "")
    && not (r.artifact_storage_name == "")
    && ltb 0 r.artifact_size
    && not (r.artifact_sha256 == "")

abbrev pub as_draft : ℕ → String → AppRelease → AppRelease
as_draft now channel r = record r {
  platform = to_upper (trim_space r.platform);
  channel = channel;
  version_name = trim_space r.version_name;
  title = trim_space r.title;
  mandatory = as_flag r.mandatory;
  status = status_draft;
  created_at = now;
  updated_at = now;
}

-- UNIQUE(platform, channel, version_code) beside the primary key.
abbrev pub is_same_release : AppRelease → AppRelease → Bool
is_same_release row r =
    r.id == row.id
    || (r.platform == row.platform
        && r.channel == row.channel
        && r.version_code == row.version_code)

-- The row starts with no time of publication; the value that is returned keeps the caller's.
pub create_release : ℕ → AppRelease → Action Contents AppRelease
unfolding normalize_channel
create_release now item d =
    let row = as_draft now (normalize_channel item.channel) item in
    if is_valid_release row
    then (elim (insert_row (is_same_release row) (record row { published_at = 0 }) d.releases) [
      | none ↦ fail (normalize_db_error duplicate_key) d
      | some rows ↦ (ok row, record d { releases = rows })
    ])
    else fail invalid d

abbrev pub find_release : String → Contents → Option AppRelease
find_release id d = select_one (λ r. r.id == id) d.releases

pub release : String → Action Contents AppRelease
release id = do found ← gets (find_release id); or_fail found (normalize_db_error no_rows)

abbrev pub published : ℕ → AppRelease → AppRelease
published now r = record r { status = status_published; published_at = now; updated_at = now }

pub publish_release : ℕ → String → Action Contents AppRelease
unfolding release
publish_release now id = do
  affected ← gets (λ d. count_where (λ r. r.id == id) d.releases)
  modify λ d. record d { releases = update_where (λ r. r.id == id) (published now) d.releases }
  fail_if (affected == 0) not_found
  release id

pub delete_release : ℕ → String → String → AuditContext → Action Contents AppRelease
delete_release now audit_id id audit = transaction do
  found ← gets (find_release id)
  item ← or_fail found (normalize_db_error no_rows)
  affected ← gets (λ d. count_where (λ r. r.id == id) d.releases)
  modify λ d. record d { releases = delete_where (λ r. r.id == id) d.releases }
  fail_if (affected == 0) not_found
  audit_contents now audit_id audit
  commit item

list_releases : ℕ → ℕ → Contents → List AppRelease × ℕ
list_releases limit offset d = (
  page limit offset (order_by (λ r s. ltb s.created_at r.created_at) d.releases),
  count_where (λ r. true) d.releases,
)

abbrev pub is_offered : String → String → AppRelease → Bool
is_offered platform channel r =
    r.platform == platform && r.channel == channel && r.status == status_published

-- ORDER BY version_code DESC, published_at DESC
abbrev pub newer : AppRelease → AppRelease → Bool
newer r s =
    ltb s.version_code r.version_code
    || (r.version_code == s.version_code && ltb s.published_at r.published_at)

pub latest_release : String → String → Contents → Result AppRelease
unfolding normalize_channel
latest_release platform channel d =
    let platform' = to_upper (trim_space platform) in
    let channel' = normalize_channel channel in
    if valid_platform platform' && valid_channel channel'
    then (elim (head? (order_by newer (select_where (is_offered platform' channel') d.releases))) [
      | none ↦ err (normalize_db_error no_rows)
      | some r ↦ ok r
    ])
    else err invalid
