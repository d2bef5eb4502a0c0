-- ===== src/Ingest.antt =====
-- The persistent queue of source files to ingest
-- (internal/agent/knowlega/service/ingest_queue.go).
pub mod Queue
pub mod Run
pub mod Edit
pub mod RunLaws
pub mod RunEnds
pub mod Recovery
pub mod EditLaws
mod Tests
