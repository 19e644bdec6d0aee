-- ===== src/Proposals.antt =====
-- internal/store/proposals.go: task proposals, their revisions and the approvals of a local operator.
pub mod Json
pub mod Rows
pub mod Requests
pub mod Validation
pub mod Identity
pub mod Mutations
pub mod Decisions
pub mod Queries
pub mod Calls
pub mod Pairs
pub mod Steps
pub mod Changes
pub mod Ledger
pub mod Outcomes
pub mod Invariant
pub mod Closed
pub mod Activity
pub mod Distinct
pub mod Success
pub mod Deciding
pub mod Pointer
pub mod Withdrawing
pub mod Names
pub mod Replay
pub mod Examples
