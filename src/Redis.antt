-- ===== src/Redis.antt =====
-- The Redis service: internal/proto/redis.
pub mod Resp
pub mod Info
pub mod Commands
pub mod Session
mod Tests
