-- ===== src/Scheduler.antt =====
-- The batch scheduler (internal/agent/knowlega/compiler/scheduler.go,
-- validateLLMWikiSourcesConcurrent). The goroutines that run tasks are the list of the active tasks;
-- what arrives on the two result channels is an event. `Types` has the state, `Dispatch`, `Texts`,
-- `Jobs`, `Results`, `Impact`, `Restart`, `StartRun` and `Events` the code, the others are proofs.
pub mod Types
pub mod Dispatch
pub mod Texts
pub mod Jobs
pub mod Results
pub mod Impact
pub mod Restart
pub mod Events
pub mod Sane
pub mod Busy
pub mod Kept
pub mod SaneResults
pub mod SaneSteps
pub mod StartRun
pub mod Restored
pub mod Unsynced
pub mod Started
mod Tests
