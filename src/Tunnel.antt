-- ===== src/Tunnel.antt =====
-- internal/tunnel: the routing tables of the server, its listeners, and the relays of bytes.
pub mod Pointers
pub mod Mux
pub mod Writer
pub mod Limiter
pub mod Table
pub mod Manager
pub mod Sni
pub mod Pump
pub mod Dialing
pub mod Edge
