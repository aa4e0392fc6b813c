-- ===== src/Sessions.antt =====
-- lib/sessions.js: server sessions and their pool, client sessions, and the ends of transactions.
pub mod Pool
pub mod Client
pub mod Ending
pub mod Retrying
