-- ===== src/Protocol.antt =====
-- internal/protocol: the messages of a control connection, their frames, and the checks on targets.
pub mod Messages
pub mod Framing
pub mod Validation
