-- ===== src/Store/Runs.antt =====
-- internal/store/runs.go, and SetRunSupervisor of queries.go: the operations that create runs and
-- record their identities. Marshalling a list of strings cannot fail, so the lists stand as they are.
use ananke.Prelude.{ℕ, String, false, ◌&&◌, not, none, ◌==◌, if◌then◌else◌, is_some}
use ananke.Int.{ℤ, pos, negsuc}
use ananke.Table.{lookup, insert, update}
use ananke.Store.State.{created}
use ananke.Store.Result.{
  Result, ok, err, ◌>>=◌, ◌>>◌, fail_if, or_fail, run_not_found, run_id_required,
  worker_path_required, transcript_identity_conflict, constraint,
}
use ananke.Store.Rows.{
  Run, RunSpec, TransitionRecord, Db, TranscriptFileIdentity, no_identity, validate, same_identity,
}

unfoldable pub create_project : String → String → String → ℕ → Db → Result Db
create_project id name root now db = do
  fail_if (is_some (lookup id db.projects)) constraint
  ok (record db {
    projects = insert id (record { name = name; root = root; created_at = now }) db.projects;
  })

unfoldable pub create_workstream : String → String → String → ℕ → Db → Result Db
create_workstream id project_id name now db = do
  fail_if (is_some (lookup id db.workstreams)) constraint
  fail_if (not (is_some (lookup project_id db.projects))) constraint
  ok (record db {
    workstreams =
        insert id (record { project = project_id; name = name; created_at = now }) db.workstreams;
  })

-- The inserted row; the columns that the INSERT leaves out have the defaults of the schema.
unfoldable pub new_run : String → String → RunSpec → ℕ → Run
new_run project_id workstream_id spec now = record {
  project_id = project_id;
  workstream_id = workstream_id;
  state = created;
  spec = spec;
  transcript_identity = no_identity;
  supervisor_pid = pos 0;
  supervisor_pgid = pos 0;
  worker_pid = pos 0;
  committed_offset = pos 0;
  cancel_requested = false;
  transcript_consumed_offset = pos 0;
  transcript_final_size = negsuc 0;
  created_at = now;
  updated_at = now;
}

unfoldable pub initial_transition : ℕ → TransitionRecord
initial_transition now = record {
  seq = 0;
  from_state = none;
  to_state = created;
  reason = "created";
  written_at = now;
}

unfoldable pub create_run : String → String → String → RunSpec → ℕ → Db → Result Db
create_run id project_id workstream_id spec now db = do
  fail_if (id == "") run_id_required
  fail_if (spec.worker_path == "") worker_path_required
  fail_if (is_some (lookup id db.runs)) constraint
  fail_if
      (not
        (is_some (lookup project_id db.projects) && is_some (lookup workstream_id db.workstreams)))
      constraint
  ok (record db {
    runs = insert id (new_run project_id workstream_id spec now) db.runs;
    transitions = insert id (initial_transition now) db.transitions;
  })

unfoldable pub get_run : String → Db → Result Run
get_run id db = or_fail (lookup id db.runs) run_not_found

unfoldable pub set_identity : TranscriptFileIdentity → ℕ → Run → Run
set_identity identity now r = record r { transcript_identity = identity; updated_at = now }

unfoldable pub set_transcript_identity : String → TranscriptFileIdentity → ℕ → Db → Result Db
set_transcript_identity run_id identity now db = do
  validate identity
  r ← or_fail (lookup run_id db.runs) run_not_found
  if same_identity r.transcript_identity identity
      then ok db
      else if not (same_identity r.transcript_identity no_identity)
      then err transcript_identity_conflict
      else ok (record db { runs = update run_id (set_identity identity now) db.runs })

unfoldable pub set_pids : ℤ → ℤ → ℤ → ℕ → Run → Run
set_pids supervisor pgid worker now r = record r {
  supervisor_pid = supervisor;
  supervisor_pgid = pgid;
  worker_pid = worker;
  updated_at = now;
}

-- No row affected means that the run is not there.
unfoldable pub set_run_supervisor : String → ℤ → ℤ → ℤ → ℕ → Db → Result Db
set_run_supervisor run_id supervisor pgid worker now db =
    if is_some (lookup run_id db.runs)
    then ok (record db { runs = update run_id (set_pids supervisor pgid worker now) db.runs })
    else err run_not_found
