-- ===== src/Socks.antt =====
-- internal/socks: the SOCKS5 handshake and the listener of the server.
pub mod Negotiate
pub mod Server
