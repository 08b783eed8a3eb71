-- ===== src/Cli.antt =====
-- internal/cli: the commands, and what the listing of sessions says.
pub mod Status
pub mod Reconcile
pub mod Commands
pub mod Live
pub mod Target
mod Tests
