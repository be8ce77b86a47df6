-- ===== src/Store.antt =====
-- internal/store: the tables and the operations on them.
pub mod Core
pub mod Rows
pub mod Accounts
pub mod Sessions
pub mod Challenges
pub mod Resets
pub mod Devices
pub mod Credentials
pub mod Memberships
pub mod Redeem
pub mod AiRows
pub mod Quota
pub mod Requests
pub mod Settlements
pub mod ContentRows
pub mod Events
pub mod Cloud
pub mod Timetables
pub mod Briefings
pub mod Jobs
pub mod JobLogs
pub mod Mailboxes
pub mod Announcements
pub mod Releases
pub mod Settings
pub mod Fixtures
