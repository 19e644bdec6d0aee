-- ===== src/Lib.antt =====
-- Ananke, a journal and lifecycle engine for supervised worker runs: a model of the parts that keep
-- its durable state, and what holds of them.
--
-- The parts. Ananke's engine (internal/lifecycle) starts a process supervisor
-- (internal/supervisor) for each run and writes everything that must survive a crash through the
-- store (internal/store), a SQLite database. A run walks through a state machine; the worker's
-- transcript is appended as numbered events with byte offsets; a run that ends leaves a row in an
-- outbox, which is settled when the process and its files are gone. The repair supervisor
-- (internal/repairsupervisor) keeps a journal of its own, of the phase claims of repair attempts.
-- The proposals (internal/store/proposals.go) record what a planner or an operator wants done as
-- numbered revisions, each with an approval that is decided once; a request carries an
-- idempotency key, under which its response is kept. The grill (internal/store/grill.go) decides
-- which questions a human is asked about a task. The transport packages
-- (internal/transportprimitives) frame and encode the messages between the processes.
--
-- Where each part is modelled.
--   Store            internal/store: state.go is Store.State; the rows of runs.go, events.go,
--                    transitions.go and outbox.go are Store.Rows; Store.Transitions has
--                    commitTransition and the operations on it (Transition, CommitTerminal,
--                    CommitNoProcessFailure) and RequestCancellation of cancellation.go; Store.Runs has
--                    CreateProject, CreateWorkstream, CreateRun, SetTranscriptIdentity and
--                    SetRunSupervisor; Store.Events has AppendEvent, SealTranscript,
--                    AdvanceTranscriptConsumed, ListEvents and the readers of offsets; Store.Outbox has
--                    AcknowledgeOutbox, AbandonOutbox and the list queries. Store.Ops makes the writing
--                    operations one type, with histories of calls. Store.RunJournal is the
--                    specification: what is recorded of one run, and how each operation advances it.
--                    The other files under Store prove that the tables refine it and what follows.
--   Schema           internal/store/store.go: runMigrations, validateSchemaVersionHistory and
--                    SchemaVersion.
--   RepairJournal    internal/repairsupervisor/journal.go: RecordBootEpoch, ClaimPhase, MarkLaunched,
--                    MarkPriorEpochNonterminal and the queries.
--   Proposals        internal/store/proposals.go and proposal_canonical.go: Proposals.Json is the canonical
--                    JSON, Requests and Validation the requests, Identity the statements that the
--                    mutations share, Mutations has CreateProposal and AppendProposalRevision, Decisions
--                    has DecideProposalApproval and WithdrawProposal, Queries the queries. Proposals.Pairs,
--                    Changes and Ledger are the abstract view, which Invariant and what follows it use.
--   Grill            internal/store/grill.go: validateGrillInput and evaluateGrillPure, with the patterns
--                    they match (Grill.Patterns).
--   GrillRecords     internal/store/grill.go: EvaluateGrill, RecordGrillDefault, RecordGrillAnswer,
--                    RecordGrillOverride and ListGrillRecords, and the tables of migrateV10.
--   Frame            internal/transportprimitives/frame.go: WriteFrame and ReadFrame. A writer is a record
--                    of Write and its contract.
--   Canonical        internal/transportprimitives/canonical.go: appendCanonicalString and compareUTF16. A
--                    string is the list of its runes, or none if it is not valid UTF-8.
--   Table, Int       tables of keyed rows with the queries' ORDER BY, and Go's signed integers.
--                    Prelude has the names and lemmas that all files share, Fallible results, and the
--                    queries and updates of tables (Prelude.Search).
--
-- The model. A table is a list of rows in the order of insertion; primary keys, UNIQUE and CHECK
-- constraints and the foreign keys that the connection enforces are tests before an insertion. An
-- operation is a function from the tables to a result; one that fails is rolled back and leaves
-- the tables as they were. Each operation reads the clock once, as a number that is an argument,
-- and the time stamps are compared as numbers. Sequence numbers of events and transitions are
-- numbers without a bound, where the code has int64: overflow would take 2 ^ 63 events of one
-- run. Offsets and process ids are signed integers. Parameters of the model are what a migration
-- does to the database (`up`), the writer of a frame with the contract of io.Writer, and the
-- canonical JSON and the SHA-256 that the repair supervisor's journal uses (`Codec`): its
-- theorems hold for every such pair of functions. Of the proposals they are SHA-256, the layout
-- of a time stamp and the reading of a stored response (`Env`), and the random identifiers are
-- arguments; revision numbers are naturals, since a request with a negative one is refused as one
-- with 0 is; the deferred foreign keys are not tested, since a mutation names only rows that it
-- writes or has read. SHA-256 is a parameter of the grill's records as well, and a column that
-- may be NULL is an option. strings.TrimSpace is Store.Trim, and strconv.FormatInt of a number
-- that is not negative is format_int of Proposals.Json. All recursion is structural but two
-- loops: the one that writes bytes has the number of bytes as fuel, since each turn that goes on
-- takes at least one, and the one that writes the decimal digits of a number has the number as
-- fuel, since a tenth of it is less (Proposals.Json).
--
-- Not modelled: errors of the database driver, context cancellation and lock waits; the
-- processes, signals, sockets and files of internal/lifecycle, internal/supervisor and
-- internal/trustedsupervisor; the launch admission and the external supervisor's tables of
-- internal/store; the floats, Booleans and mixed arrays of canonical JSON, which no proposal
-- holds; the contracts, runners and verifiers of repairs, the release artifacts, the GUI and the
-- commands.
pub mod Canonical
pub mod Frame
pub mod Grill
pub mod GrillRecords
pub mod Int
pub mod Prelude
pub mod Proposals
pub mod RepairJournal
pub mod Schema
pub mod Store
pub mod Table
