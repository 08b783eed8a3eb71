-- ===== src/Leak.antt =====
-- internal/leak: what a candidate may ever see. The proofs are in the modules below each part.
pub mod Path
pub mod Pattern
pub mod Glob
pub mod Classifier
pub mod Scan
mod Tests
