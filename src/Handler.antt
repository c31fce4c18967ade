-- ===== src/Handler.antt =====
-- src/handler.rs: statements against the shared state (Rows, Defs), and what they do to it.
pub mod Rows
pub mod Defs
pub mod Query
pub mod Positions
pub mod Rollback
pub mod Interleaved
pub mod Inserting
pub mod Stepping
pub mod Isolation
pub mod Publishing
pub mod Errors
pub mod Terminating
