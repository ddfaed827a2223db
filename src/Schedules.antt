-- ===== src/Schedules.antt =====
-- The scheduled agent jobs and their runs: shared/schedules and db/services/scheduled-agent-jobs.ts.
pub mod Platform
pub mod Calendar
pub mod Timing
pub mod Outcome
pub mod Rows
pub mod Records
pub mod Jobs
pub mod Dispatch
pub mod Worker
pub mod Input
pub mod Report
pub mod Lifecycle
pub mod Invariant
pub mod Steps
pub mod Advance
pub mod Recovery
pub mod Visibility
mod Tests
