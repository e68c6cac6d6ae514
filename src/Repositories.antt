-- ===== src/Repositories.antt =====
-- storage/repositories.py: one module for each repository class.
pub mod Events
pub mod Jobs
pub mod Hosts
pub mod Leases
pub mod Executions
pub mod ProjectSessions
pub mod Sessions
pub mod Approvals
pub mod Recovery
pub mod Telegram
pub mod ProjectWork
pub mod QaRuns
