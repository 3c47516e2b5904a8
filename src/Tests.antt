-- ===== src/Tests.antt =====
-- Concrete runs, and each theorem at a concrete input.
pub mod Device
pub mod Agent
pub mod Checks
pub mod Services
pub mod Flashing
pub mod Publishing
pub mod Journal
pub mod Keys
pub mod Network
pub mod Commands
