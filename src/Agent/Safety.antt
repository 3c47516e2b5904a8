-- ===== src/Agent/Safety.antt =====
-- Properties of unoq_ota/agent.py over any number of cycles.
pub mod Attempts
pub mod Provenance
pub mod Replay
pub mod Poison
pub mod DryRun
pub mod Blame
