-- ===== src/Mysql.antt =====
-- The MySQL service: internal/proto/mysql/handler.go.
pub mod Packet
pub mod Handshake
pub mod Session
mod Tests
