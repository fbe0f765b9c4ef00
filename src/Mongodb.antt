-- ===== src/Mongodb.antt =====
-- The MongoDB protocol: internal/proto/mongodb/handler.go.
pub mod Message
pub mod Bson
pub mod Sections
pub mod Json
pub mod Encode
pub mod Reply
pub mod Session
mod Tests
