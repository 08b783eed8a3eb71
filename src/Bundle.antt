-- ===== src/Bundle.antt =====
-- internal/bundle: the candidate drop, how it is written and the gate that it has to pass when it is.
pub mod Gate
pub mod Write
mod Tests
