-- ===== src/Protocol.antt =====
-- The wire protocol, crates/kesharon-protocol/src/lib.rs.
pub mod Error
pub mod Request
pub mod Response
pub mod Event
pub mod Frame
pub mod Token
