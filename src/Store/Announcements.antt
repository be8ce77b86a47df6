-- ===== src/Store/Announcements.antt =====
-- internal/store/releases.go, the announcements: what the applications show to their users.
mod Tests
use classing_backend.Base.{
  ℕ, String, Bool, true, false, not, ◌&&◌, ◌||◌, Option, none, some, List, leb, ltb, if◌then◌else◌,
  ◌==◌, nat_eq, string_eq,
}
use classing_backend.Base.Lists.{take}
use classing_backend.Base.Int.{ltb_ℤ, leb_ℤ}
use classing_backend.Base.Order.{order_by, page}
use classing_backend.Base.Table.{select_one, select_where, count_where, update_where, delete_where}
use classing_backend.Base.Text.{trim_space, to_upper}
use classing_backend.Store.Core.{
  not_found, invalid, duplicate_key, no_rows, normalize_db_error, Result, ok, err, Action, pure,
  fail, gets, or_fail, ◌>>=◌, ◌>>◌, fail_if, modify, insert_row,
}
use classing_backend.Store.ContentRows.{as_flag, Announcement, Contents}

abbrev pub valid_platform : String → Bool
valid_platform p = p == "ANDROID_MOBILE" || p == "ANDROID_WEAR"

-- The texts without their margins, and the flag as 0 or 1.
abbrev pub tidied : Announcement → Announcement
tidied a = record a {
  title = trim_space a.title;
  content = trim_space a.content;
  platform = to_upper (trim_space a.platform);
  active = as_flag a.active;
}

abbrev pub is_valid_announcement : Announcement → Bool
is_valid_announcement a =
    not (a.title == "") && not (a.content == "") && (a.platform == "" || valid_platform a.platform)

abbrev pub find_announcement : String → Contents → Option Announcement
find_announcement id d = select_one (λ a. a.id == id) d.announcements

pub announcement : String → Action Contents Announcement
announcement id = do found ← gets (find_announcement id); or_fail found (normalize_db_error no_rows)

-- `new_id` is for an item that brings no id.
pub create_announcement : ℕ → String → Announcement → Action Contents Announcement
create_announcement now new_id item d =
    let t = tidied item in
    let row : Announcement = record t {
      id = if item.id == "" then new_id else item.id;
      publish_at = if item.publish_at == 0 then now else item.publish_at;
      created_at = now;
      updated_at = now;
    } in
    if is_valid_announcement t
    then (elim (insert_row (λ a. a.id == row.id) row d.announcements) [
      | none ↦ fail (normalize_db_error duplicate_key) d
      | some rows ↦ (ok row, record d { announcements = rows })
    ])
    else fail invalid d

pub update_announcement : ℕ → Announcement → Action Contents Announcement
unfolding announcement
update_announcement now item = do
  let t = tidied item
  fail_if (item.id == "" || not (is_valid_announcement t)) invalid
  affected ← gets (λ d. count_where (λ a. a.id == item.id) d.announcements)
  modify λ d. record d {
    announcements =
        update_where (λ a. a.id == item.id)
          (λ a. record a {
            title = t.title;
            content = t.content;
            platform = t.platform;
            priority = t.priority;
            active = t.active;
            publish_at = t.publish_at;
            expires_at = t.expires_at;
            updated_at = now;
          })
          d.announcements;
  }
  fail_if (affected == 0) not_found
  announcement item.id

pub delete_announcement : String → Action Contents (Unit {0})
delete_announcement id = do
  affected ← gets (λ d. count_where (λ a. a.id == id) d.announcements)
  modify λ d. record d { announcements = delete_where (λ a. a.id == id) d.announcements }
  fail_if (affected == 0) not_found

list_announcements : ℕ → ℕ → Contents → List Announcement × ℕ
list_announcements limit offset d = (
  page limit offset (
      order_by
        (λ a b.
          ltb b.publish_at a.publish_at
          || (a.publish_at == b.publish_at && ltb b.created_at a.created_at))
        d.announcements),
  count_where (λ a. true) d.announcements,
)

-- Shown to a platform now: on, published, not run out, and for the platform or for all.
abbrev pub is_public : ℕ → String → Announcement → Bool
is_public now platform a =
    a.active == 1
    && leb a.publish_at now
    && (a.expires_at == 0 || ltb now a.expires_at)
    && (a.platform == "" || a.platform == platform)

-- ORDER BY priority DESC, publish_at DESC
abbrev pub shown_before : Announcement → Announcement → Bool
shown_before a b =
    ltb_ℤ b.priority a.priority
    || (leb_ℤ a.priority b.priority && leb_ℤ b.priority a.priority && ltb b.publish_at a.publish_at)

pub public_announcements : ℕ → String → ℕ → Contents → Result (List Announcement)
public_announcements now platform limit d =
    let platform' = to_upper (trim_space platform) in
    if valid_platform platform'
    then ok (
        take limit (order_by shown_before (select_where (is_public now platform') d.announcements)))
    else err invalid
