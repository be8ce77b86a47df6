-- ===== src/Http.antt =====
-- internal/httpapi: the parts of the HTTP layer that keep state or decide.
pub mod RateLimit
pub mod RefreshReplay
pub mod Tokens
pub mod Auth
