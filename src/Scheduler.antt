-- ===== src/Scheduler.antt =====
-- pkg/scheduler: the client of the job scheduler.
pub mod Config
pub mod Buffer
pub mod Disk
pub mod Spool
pub mod Submit
pub mod Executor
pub mod Reconnect
pub mod Session
pub mod Lifecycle
pub mod Jobs
