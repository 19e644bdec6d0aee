-- ===== src/Store/Ops.antt =====
-- The operations of internal/store on one run, as one type, and a history of calls.
use ananke.Prelude.{ℕ, String, List, [], ◌∷◌}
use ananke.Int.{ℤ}
use ananke.Store.State.{State}
use ananke.Store.Result.{Result, ok, ◌>>=◌, after}
use ananke.Store.Rows.{Db, RunSpec, TranscriptFileIdentity}
use ananke.Store.Transitions.{
  TransitionCommit, transition, commit_terminal, commit_no_process_failure, request_cancellation,
}
use ananke.Store.Runs.{
  create_project, create_workstream, create_run, set_transcript_identity, set_run_supervisor,
}
use ananke.Store.Events.{append_event, seal_transcript, advance_transcript_consumed}
use ananke.Store.Outbox.{acknowledge_outbox, abandon_outbox}

-- A project and a workstream, and then what is done to one run.
pub data Op : Type 0 where
  found_project : String → String → Op
  found_workstream : String → String → Op
  create : String → String → RunSpec → Op
  move : State → String → Op
  finish : State → String → TransitionCommit → Op
  fail_unstarted : String → Op
  cancel : Op
  publish_identity : TranscriptFileIdentity → Op
  publish_pids : ℤ → ℤ → ℤ → Op
  append : String → List ℕ → ℤ → Op
  seal : ℤ → Op
  consume : ℤ → Op
  acknowledge : Op
  abandon : String → Op

unfoldable pub call : String → Op → ℕ → Db → Result Db
call id (found_project name root) now db = create_project id name root now db
call id (found_workstream project name) now db = create_workstream id project name now db
call id (create project workstream spec) now db = create_run id project workstream spec now db
call id (move to reason) now db = transition id to reason now db
call id (finish to reason address) now db = commit_terminal id to reason address now db
call id (fail_unstarted reason) now db = commit_no_process_failure id reason now db
call id cancel now db = request_cancellation id now db >>= λ r. ok r.1
call id (publish_identity identity) now db = set_transcript_identity id identity now db
call id (publish_pids s g w) now db = set_run_supervisor id s g w now db
call id (append type payload offset) now db =
    append_event id type payload offset now db >>= λ r. ok r.1
call id (seal size) now db = seal_transcript id size now db
call id (consume offset) now db = advance_transcript_consumed id offset now db
call id acknowledge now db = acknowledge_outbox id now db
call id (abandon reason) now db = abandon_outbox id reason now db

-- A call names its run, project or workstream, and the time of its clock; one that fails leaves the database as it was.
pub record Call : Type 0 where
  pub id : String
  pub op : Op
  pub now : ℕ

unfoldable pub step : Call → Db → Db
step c db = after db (call c.id c.op c.now db)

unfoldable pub run_calls : List Call → Db → Db
run_calls [] db = db
run_calls (c ∷ cs) db = run_calls cs (step c db)

unfoldable pub empty : Db
empty = record {
  projects = [];
  workstreams = [];
  runs = [];
  transitions = [];
  outbox = [];
  events = [];
}
