-- ===== src/Connection.antt =====
-- lib/connection: what a connection makes of the bytes that it receives, and the pool of connections.
pub mod Framing
pub mod Pool
