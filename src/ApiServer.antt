-- ===== src/ApiServer.antt =====
-- crates/api-server.
pub mod RateLimit
