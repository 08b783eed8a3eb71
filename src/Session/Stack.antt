-- ===== src/Session/Stack.antt =====
-- internal/session/session.go: the processes of a live session, from `Start` to `Stop`. What runs is
-- a `Host`, a parameter; the workdir's part is the pidfiles and the session record. Each command logs
-- what it did to processes, the newest first; the messages to the operator are left out.
mod Types
pub mod Launch
pub mod Shell
pub mod Start
pub mod Stop
unfoldable pub use Types.*
