-- ===== src/Agent.antt =====
-- unoq_ota/agent.py
pub mod World
pub mod Cycle
pub mod Store
pub mod Rollback
pub mod Install
pub mod Commit
pub mod Fetch
pub mod Discipline
pub mod Safety
