-- ===== src/Runs.antt =====
-- The queue of agent runs (internal/qm/data/runs.go and its migrations 000002_runner.sql,
-- 000031_run_runtime_owner.sql).
mod Run
mod Lease
mod Signals
mod Ids
mod Exclusive
mod Inv
mod Kept
mod Histories
mod Blocked
mod Repeats
mod Tests
