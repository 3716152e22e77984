-- ===== src/Daemon.antt =====
-- The daemon, crates/kesharon-daemon/src.
pub mod Session
pub mod Storage
pub mod Server
pub mod Start
pub mod Vault
pub mod Runtime
pub mod Repository
