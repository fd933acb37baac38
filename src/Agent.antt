-- ===== src/Agent.antt =====
-- The agent of backend/app/agent.
pub mod Results
pub mod Safety
pub mod Memory
pub mod Parser
pub mod Roles
pub mod Gates
pub mod Loop
pub mod Runs
pub mod Cache
