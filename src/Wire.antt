-- ===== src/Wire.antt =====
-- lib/connection/commands.js, lib/connection/msg.js and parseHeader of lib/wireprotocol/shared.js: the
-- messages of the wire protocol as lists of bytes.
pub mod Bytes
pub mod Requests
pub mod Msg
pub mod Compression
