-- ===== src/JobManager.antt =====
-- controller/job_manager.py, with every registry enabled: a job's way from its creation to its end.
pub mod Lifecycle
pub mod Queue
pub mod Guards
pub mod Release
pub mod Ending
pub mod Selection
pub mod Config
pub mod Notices
pub mod Waits
pub mod Creation
pub mod Retries
pub mod HostRetries
pub mod Recover
pub mod Turns
pub mod Failures
pub mod Cancellation
pub mod Gates
pub mod Executions
pub mod Startup
pub mod Ended
pub mod Steering
mod Numerals
pub mod Holding
pub mod Delivery
