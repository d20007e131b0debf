-- ===== src/Poller.antt =====
-- internal/poller: registration of remote pollers (poller.go) and the queue of their jobs (jobs.go).
pub mod Rows
pub mod Jobs
pub mod History
pub mod Calls
pub mod Claims
pub mod Pick
pub mod Effects
pub mod Reports
pub mod Registry
pub mod Tokens
mod Tests
