-- ===== src/Debug.antt =====
-- internal/debug: scenarios, and the engine that breaks, checks and fixes them.
pub mod Scenario
pub mod Load
pub mod Engine
pub mod Prove
mod Tests
