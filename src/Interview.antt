-- ===== src/Interview.antt =====
-- internal/interview: the record of interview sessions on one machine.
pub mod Seed
pub mod Store
mod Tests
