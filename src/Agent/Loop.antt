-- ===== src/Agent/Loop.antt =====
-- The loop of `AgentLoop.run` in backend/app/agent/runtime.py. Writes to the database succeed; logs and
-- spans are left out.
pub mod State
pub mod Calls
pub mod Rounds
pub mod Run
pub mod Frame
pub mod Round
pub mod Steps
pub mod Usage
pub mod Resume
pub mod Ends
