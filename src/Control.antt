-- ===== src/Control.antt =====
-- internal/control: the server's side of the clients it has dialled, and whom it trusts.
pub mod Approvals
pub mod Registry
pub mod Requests
pub mod Dials
pub mod Session
pub mod Heartbeat
pub mod KnownHosts
pub mod Trust
