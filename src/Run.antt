-- ===== src/Run.antt =====
-- app/run: which commands this program may execute, and how it executes them.
pub mod Allowlist
pub mod Commands
pub mod Runner
