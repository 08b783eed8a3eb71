-- ===== src/Content.antt =====
-- internal/content: what a manifest declares, and the rules that a declaration has to pass.
pub mod Params
pub mod Taxonomy
pub mod Manifest
mod Tests
