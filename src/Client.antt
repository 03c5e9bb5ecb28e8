-- ===== src/Client.antt =====
-- internal/client: the client's side of the servers that dialled it.
pub mod Pool
pub mod Session
