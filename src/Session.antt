-- ===== src/Session.antt =====
-- internal/session: the live layer over an environment.
pub mod Stack
pub mod Evidence
mod Tests
