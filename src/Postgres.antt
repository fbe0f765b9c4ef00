-- ===== src/Postgres.antt =====
-- The PostgreSQL protocol: internal/proto/postgres/handler.go.
pub mod Message
pub mod Startup
pub mod Session
mod Tests
