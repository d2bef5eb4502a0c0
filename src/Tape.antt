-- ===== src/Tape.antt =====
-- The conversation tape (internal/qm/agent/tape_fold.go): the fold of its rows to messages, the lint
-- of a fold, and the repair of tool calls that an interrupt has left without results.
pub mod Message
pub mod Fold
pub mod Lint
pub mod Range
pub mod Answered
pub mod Healed
mod Tests
