-- ===== src/Store/Mailboxes.antt =====
-- internal/store/briefings.go, the pool of SMTP mailboxes, each with a quota of mails for a day.
pub mod Quota
mod Tests
use classing_backend.Base.{
  ℕ, ◌+◌, ◌-◌, String, Bool, true, false, not, ◌&&◌, ◌||◌, Option, none, some, List, [], ◌∷◌, ◌++◌,
  ltb, if◌then◌else◌, ◌==◌, nat_eq, string_eq,
}
use text.Mathlib.Text.{starts_with}
use classing_backend.Base.Order.{order_by}
use classing_backend.Base.Table.{select_one, select_where, count_where, update_where, delete_where}
use classing_backend.Store.Core.{
  not_found, conflict, invalid, duplicate_key, no_rows, normalize_db_error, ok, Action, pure, fail,
  gets, or_fail, ◌>>=◌, ◌>>◌, fail_if, modify, transaction, commit, insert_row,
}
use classing_backend.Store.ContentRows.{as_flag, Mailbox, Contents}

-- A new day starts with nothing used.
abbrev pub at_date : ℕ → String → Mailbox → Mailbox
at_date now usage_date m =
    if m.usage_date == usage_date
    then m
    else record m { used_today = 0; usage_date = usage_date; updated_at = now }

abbrev pub start_day : ℕ → String → Contents → Contents
start_day now usage_date d = record d {
  mailboxes =
      update_where (λ m. not (m.usage_date == usage_date))
        (λ m. record m { used_today = 0; usage_date = usage_date; updated_at = now }) d.mailboxes;
}

abbrev pub has_quota : Mailbox → Bool
has_quota m = m.enabled == 1 && ltb m.used_today m.daily_quota

-- ORDER BY used_today ASC, created_at ASC
abbrev pub mailbox_before : Mailbox → Mailbox → Bool
mailbox_before m n =
    ltb m.used_today n.used_today || (m.used_today == n.used_today && ltb m.created_at n.created_at)

-- The first candidate that is not excluded.
abbrev pub pick_mailbox : (String → Bool) → Contents → Option Mailbox
pick_mailbox excluded d =
    select_one (λ m. not (excluded m.id))
      (order_by mailbox_before (select_where has_quota d.mailboxes))

abbrev pub can_be_used : String → Mailbox → Bool
can_be_used id m = m.id == id && ltb m.used_today m.daily_quota

abbrev pub used_once_more : ℕ → Mailbox → Mailbox
used_once_more now m = record m { used_today = m.used_today + 1; updated_at = now }

-- A mailbox with the empty id counts as none.
unfoldable pub acquire_mailbox_excluding : ℕ → String → (String → Bool) → Action Contents Mailbox
acquire_mailbox_excluding now usage_date excluded = transaction do
  modify (start_day now usage_date)
  found ← gets (pick_mailbox excluded)
  item ← or_fail found not_found
  fail_if (item.id == "") not_found
  affected ← gets (λ d. count_where (can_be_used item.id) d.mailboxes)
  modify λ d. record d {
    mailboxes = update_where (can_be_used item.id) (used_once_more now) d.mailboxes;
  }
  fail_if (not (affected == 1)) conflict
  commit (record item { used_today = item.used_today + 1 })

pub acquire_mailbox : ℕ → String → Action Contents Mailbox
acquire_mailbox now usage_date = acquire_mailbox_excluding now usage_date (λ _. false)

abbrev pub is_reserved_at : String → String → Mailbox → Bool
is_reserved_at id usage_date m = m.id == id && m.usage_date == usage_date

unfoldable pub release_mailbox_reservation : ℕ → String → String → Action Contents (Unit {0})
release_mailbox_reservation now id usage_date = modify λ d. record d {
  mailboxes =
      update_where (is_reserved_at id usage_date)
        (λ m. record m { used_today = m.used_today - 1; updated_at = now }) d.mailboxes;
}

list_mailboxes : Contents → List Mailbox
list_mailboxes d = order_by (λ m n. ltb n.created_at m.created_at) d.mailboxes

mail_ready : Contents → Bool
mail_ready d = ltb 0 (count_where (λ m. m.enabled == 1 && ltb 0 m.daily_quota) d.mailboxes)

abbrev pub is_valid_mailbox : Mailbox → Bool
is_valid_mailbox m =
    not (m.smtp_host == "")
    && ltb 0 m.smtp_port
    && ltb 0 m.daily_quota
    && starts_with m.password_secret_ref "env:"

-- The row is stored with nothing used, and is returned with what the caller's value has there.
pub create_mailbox : ℕ → String → Mailbox → Action Contents Mailbox
create_mailbox now id item d =
    let made = record item {
      id = id;
      created_at = now;
      updated_at = now;
      enabled = as_flag item.enabled;
    } in
    if is_valid_mailbox item
    then (elim (insert_row (λ m. m.id == id) (record made { used_today = 0; usage_date = "" })
        d.mailboxes) [
          | none ↦ fail (normalize_db_error duplicate_key) d
          | some rows ↦ (ok made, record d { mailboxes = rows })
        ])
    else fail invalid d

pub update_mailbox : ℕ → Mailbox → Action Contents Mailbox
update_mailbox now item = do
  fail_if (item.id == "" || not (is_valid_mailbox item)) invalid
  affected ← gets (λ d. count_where (λ m. m.id == item.id) d.mailboxes)
  modify λ d. record d {
    mailboxes =
        update_where (λ m. m.id == item.id)
          (λ m. record m {
            name = item.name;
            smtp_host = item.smtp_host;
            smtp_port = item.smtp_port;
            username = item.username;
            password_secret_ref = item.password_secret_ref;
            from_address = item.from_address;
            daily_quota = item.daily_quota;
            enabled = as_flag item.enabled;
            updated_at = now;
          })
          d.mailboxes;
  }
  fail_if (affected == 0) not_found
  found ← gets (λ d. select_one (λ m. m.id == item.id) d.mailboxes)
  or_fail found (normalize_db_error no_rows)

pub delete_mailbox : String → Action Contents (Unit {0})
delete_mailbox id = do
  affected ← gets (λ d. count_where (λ m. m.id == id) d.mailboxes)
  modify λ d. record d { mailboxes = delete_where (λ m. m.id == id) d.mailboxes }
  fail_if (affected == 0) not_found
