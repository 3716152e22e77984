-- ===== src/Application.antt =====
-- The use cases and ports of crates/kesharon-application/src/lib.rs.
pub mod Error
pub mod Ports
pub mod OpenProject
pub mod Recovery
pub mod Tests
