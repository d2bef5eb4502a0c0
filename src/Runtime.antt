-- ===== src/Runtime.antt =====
-- The durable queue of runtime tasks (internal/qm/data/runtime_tasks.go and its migrations
-- 000025_runtime_tasks.sql, 000029_runtime_task_serial_key.sql).
pub mod Task
pub mod Store
pub mod Claim
pub mod Finish
pub mod Rows
pub mod Steps
pub mod FinishInv
pub mod Invariant
pub mod Fencing
pub mod Ended
pub mod Order
pub mod Ready
pub mod Idempotence
pub mod Lifecycle
pub mod Refinement
pub mod Simulation
mod Tests
