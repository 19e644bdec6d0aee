-- ===== src/Store.antt =====
-- internal/store: the durable journal of runs. `Rows` holds the tables, `Transitions`, `Runs`, `Events`
-- and `Outbox` the operations on them, and the others what is proved of them.
pub mod State
pub mod Trim
pub mod Result
pub mod Rows
pub mod Invariant
pub mod Sequence
pub mod Transitions
pub mod Runs
pub mod Events
pub mod Outbox
pub mod Ops
pub mod RunJournal
pub mod Refinement
pub mod Histories
pub mod Steps
pub mod Progress
pub mod Cancel
pub mod Examples
pub mod Settlement
pub mod Active
pub mod Reading
pub mod Finish
