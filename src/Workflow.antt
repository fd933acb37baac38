-- ===== src/Workflow.antt =====
-- The workflow orchestrator: backend/app/workflow.
pub mod Dag
pub mod Json
pub mod Records
pub mod State
pub mod Queue
pub mod Definition
pub mod Executor
pub mod Api
pub mod Scheduler
