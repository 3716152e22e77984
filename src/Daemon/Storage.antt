-- ===== src/Daemon/Storage.antt =====
-- The storage of the daemon, crates/kesharon-daemon/src/storage.rs.
pub mod Convert
pub mod Sql
pub mod Projects
pub mod Tasks
pub mod Records
pub mod RoundTrip
pub mod Restart
pub mod Recovery
pub mod Open
pub mod Production
pub mod Tests
