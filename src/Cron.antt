-- ===== src/Cron.antt =====
-- The table of crons and its documents (internal/qm/data/crons.go).
mod Document
mod Table
mod Claims
mod Projection
mod Columns
mod Runs
mod FireLog
mod FireLaws
mod Tests
