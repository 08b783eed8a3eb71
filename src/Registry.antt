-- ===== src/Registry.antt =====
-- internal/registry: the problems of a content root.
pub mod Load
mod Tests
