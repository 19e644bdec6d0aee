-- ===== src/GrillRecords.antt =====
-- internal/store/grill.go: the append-only records of the evaluations of a revision and of what the
-- operator answers, with the tables of migrateV10 in store.go.
pub mod Rows
pub mod Actions
pub mod Evaluations
pub mod Repeats
pub mod Calls
pub mod Growth
pub mod Stream
pub mod Bounds
pub mod Examples
