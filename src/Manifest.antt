-- ===== src/Manifest.antt =====
-- The manifest of sources and pages (internal/agent/knowlega/manifest/manifest.go).
mod File
mod Owners
mod Returns
mod Versions
mod Tests
