-- ===== src/Daemon/Session.antt =====
-- The session of the daemon, crates/kesharon-daemon/src/session.rs.
pub mod State
pub mod Ledger
pub mod Emit
pub mod Reply
pub mod Open
pub mod Cancel
pub mod Restore
pub mod Answers
pub mod Stored
pub mod Again
pub mod Threads
pub mod Tests
