-- ===== src/Http/Elasticsearch.antt =====
-- The Elasticsearch service of internal/proto/http/handler.go.
pub mod Documents
pub mod Service
pub mod Routing
pub mod Logs
