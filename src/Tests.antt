-- ===== src/Tests.antt =====
-- The theorems at concrete inputs.
pub mod Dag
pub mod Queue
pub mod Process
pub mod Tasks
pub mod Agent
pub mod Loop
pub mod Runs
pub mod Identity
pub mod Schedules
pub mod Cost
