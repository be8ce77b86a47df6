-- ===== src/Lib.antt =====
-- classing_backend: the server of a school timetable application, in Go. It keeps accounts, sessions,
-- memberships, timetables and settings in SQLite or PostgreSQL, answers HTTP requests, and sells an AI
-- assistant by points. This library models its core and proves what makes it correct.
--
-- How the parts interact: a handler of internal/httpapi passes a rate limiter, checks the caller's
-- session and calls one operation of internal/store. An operation runs SQL statements, most of them in
-- one transaction, and returns a value or one of a few errors. A request to the assistant is priced by
-- internal/aicost before it is sent and after. The worker of internal/worker takes the mails from the queue
-- that the store keeps, makes the daily briefings from the stored timetables, and sends both.
--
-- Base: tests, numbers, signed integers, texts, dates, association lists, rows in the order of a query,
--   and a table as the list of its rows with the SQL statements as list functions.
-- Http/RateLimit: the limiter of internal/httpapi/middleware.go. A mutex makes a method one step, so a
--   method is a function on the limiter; a Go map is an association list, whose order stands for the
--   order of Go's iteration.
-- Http/Auth: requireAuth and requireAdmin of internal/httpapi/middleware.go. The parsing of an access
--   token is an argument, which Http/Tokens fills.
-- Http/Tokens: internal/auth/tokens.go, Issue and Parse.
-- Http/RefreshReplay: internal/httpapi/refresh_replay.go, as a step relation on the cache. A locked part
--   of a method is a step; the calls take their steps in any order.
-- AiCost: internal/aicost/catalog.go, prices and estimates. Signed integers where the code clamps them.
-- Store/Core: internal/store/core.go. An operation is a function from the tables to its result and the
--   tables it leaves. `transaction` restores the tables when its body fails, unless the body commits
--   and then fails. The statements fail on a missing row and on a violated UNIQUE constraint; failures
--   of the connection, of foreign keys and of serialisation are left out, and so are interleavings of
--   statements of two operations.
-- Store/Rows: the rows, by internal/model/model.go and internal/store/migrations.go.
-- Store/Accounts, Store/Sessions, Store/Challenges, Store/Resets: internal/store/users.go.
-- Store/Devices: internal/store/device_authorizations.go.
-- Store/Memberships, Store/Redeem: internal/store/membership.go.
-- Store/AiRows, Store/Quota, Store/Requests, Store/Settlements: internal/store/ai.go.
-- Store/ContentRows: the rows beside the accounts, and the record of all tables, by the same files.
-- Store/Cloud, Store/Events: internal/store/cloud.go and events.go.
-- Store/Timetables: internal/store/timetables.go.
-- Store/Briefings, Store/Jobs, Store/JobLogs, Store/Mailboxes: internal/store/briefings.go.
-- Store/Announcements, Store/Releases: internal/store/releases.go.
-- Store/Settings: the settings, the audit log and the dashboard of internal/store/admin.go.
-- Worker/Weeks, Worker/Lessons, Worker/Documents, Worker/Mail: internal/worker/briefing.go, and the texts of
--   the mails of internal/worker/worker.go: from a stored document to the mail that is sent.
-- Worker/Schedule, Worker/Delivery: internal/worker/worker.go, a round of the scheduler and one delivery.
--   The loop over the mailboxes has fuel for one round more than there are mailboxes; each round excludes
--   another one, so that the fuel is enough.
-- Store/Credentials: the operations that sign a user out, together.
-- Store/Fixtures and the modules Tests: small installations and runs of the operations on them.
--
-- Arguments of an operation that Go computes inside: the clock (`now`, milliseconds; one reading for an
-- operation), the random ids and tokens, and the hashes of tokens and passwords. An id that is taken
-- already makes the operation fail as the constraint does. The month of the quota and its end, which Go
-- computes from the clock and a time zone, are arguments too.
--
-- Bounds: times and counts are natural numbers; a clock value 0 stands in the tables for "not yet", so
-- statements about what happens after a change ask for a time that is not 0. The loops over rows are
-- structural; the loop that makes redeem codes recurs on the supply of random tokens, and has no result
-- if they run out.
--
-- An int64 that the JSON of a user or a stored text can make overflow wraps around (the end of a lesson, the
-- minute of a delivery), and strconv.Atoi gives the nearest int64. Other sums stay far below the bound.
--
-- Parameters that stand for code that is not in the repository: HMAC and base64 (as the record Codec of
-- Http/Tokens, with the JSON of claims), whether a text is JSON, the decoders and the
-- encoder of JSON, the time zones that are known and what a time is in them, and the sending of a mail over
-- SMTP. The order of texts in the database is the one of their characters.
--
-- Not modelled: the queries of one page of users, codes, conversations and messages for display; the
-- timers and the SMTP conversation of internal/worker.
--
-- Nor are HTTP parsing and routing, the proxy to the AI provider, file storage, migrations,
-- configuration and password hashing modelled, which are I/O or calls of libraries. Changes of case are
-- modelled for ASCII letters only.
pub mod Base
pub mod Http
pub mod AiCost
pub mod Store
pub mod Worker
