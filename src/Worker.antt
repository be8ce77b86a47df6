-- ===== src/Worker.antt =====
-- internal/worker: the scheduler and the delivery of the daily briefings.
pub mod Delivery
pub mod Documents
pub mod Fixtures
pub mod Lessons
pub mod Mail
pub mod Schedule
pub mod Weeks
