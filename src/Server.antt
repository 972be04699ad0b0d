-- ===== src/Server.antt =====
-- The control server, src/server/internal.
pub mod Session
pub mod RtvPool
pub mod Registry
pub mod Db
pub mod Api
