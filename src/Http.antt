-- ===== src/Http.antt =====
-- The Elasticsearch and CouchDB services: internal/proto/http/handler.go.
pub mod Message
pub mod Path
pub mod Mux
pub mod Serve
pub mod BasicAuth
pub mod Elasticsearch
pub mod Couchdb
pub mod Faultless
mod Tests
