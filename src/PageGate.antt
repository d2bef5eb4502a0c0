-- ===== src/PageGate.antt =====
-- The gate for new pages (internal/agent/knowlega/compiler/page_gate.go, applyNewPageGate). What the
-- model answers is a parameter.
pub mod Decide
pub mod Kept
mod Tests
