-- ===== src/Redteam.antt =====
-- internal/redteam: the ledger of calibration runs.
pub mod Ledger
mod Tests
