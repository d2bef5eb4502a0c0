-- ===== src/Scan.antt =====
-- The scan of the raw sources (internal/agent/knowlega/service/ingest_queue.go, ScanRawSources).
mod Watch
mod Run
mod Known
mod Again
mod Twice
mod Tests
