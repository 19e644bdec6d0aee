-- ===== src/Store/Transitions.antt =====
-- internal/store/transitions.go and cancellation.go: changes of a run's state. The three UPDATEs
-- that commitTransition may make of the run's row stand together as one; the mutation hooks are
-- off, as in every production build.
use ananke.Prelude.{
  ℕ, String, Bool, true, false, ◌||◌, ◌&&◌, not, none, some, List, map, if◌then◌else◌, is_some,
}
use ananke.Int.{ℤ, pos, ltb_ℤ, eqb_ℤ}
use ananke.Table.{lookup, rows, insert, update}
use ananke.Store.State.{
  State, created, running, cancelling, completed, failed, same, is_terminal, can_transition,
}
use ananke.Store.Result.{
  Result, ok, err, ◌>>=◌, ◌>>◌, fail_if, or_fail, run_not_found, invalid_transition,
  terminal_requires_outbox, transition_not_terminal, no_process_identity,
  terminal_transcript_incomplete, terminal_transcript_identity, run_terminal,
  cancellation_requested, constraint,
}
use ananke.Store.Rows.{
  Run, TransitionRecord, OutboxRow, Db, pending, acknowledged, no_identity, is_zero, validate,
  next_seq,
}

pub record TransitionCommit : Type 0 where
  pub terminal : Bool
  pub no_process : Bool
  pub supervisor_pid : ℤ
  pub supervisor_pgid : ℤ
  pub socket_path : String
  pub token : String

-- The checks of the old state against the new one.
unfoldable pub admit : Run → State → TransitionCommit → Result (Unit {0})
admit r to commit =
    if commit.terminal && same to completed && r.cancel_requested
    then err cancellation_requested
    else if commit.no_process
    then (if not (same to failed) || not (same r.state created || same r.state running)
        then err invalid_transition
        else if not (is_zero r.supervisor_pid && is_zero r.supervisor_pgid && is_zero r.worker_pid)
        then err no_process_identity
        else ok tt)
    else if can_transition r.state to
    then ok tt
    else err invalid_transition

-- What a failure with no process clears: the file identity, and the offsets if a transcript was due.
unfoldable pub clear_transcript : TransitionCommit → Run → Run
clear_transcript commit r =
    if not commit.no_process
    then r
    else if r.transcript_required
    then record r {
      transcript_identity = no_identity;
      transcript_consumed_offset = pos 0;
      transcript_final_size = pos 0;
    }
    else record r { transcript_identity = no_identity }

-- A terminal state needs the whole transcript.
unfoldable pub require_handoff : Run → TransitionCommit → Result (Unit {0})
require_handoff r commit =
    if not (commit.terminal && not commit.no_process && r.transcript_required)
    then ok tt
    else if ltb_ℤ r.transcript_final_size (pos 0)
        || not (eqb_ℤ r.transcript_consumed_offset r.transcript_final_size)
    then err terminal_transcript_incomplete
    else elim (validate r.transcript_identity) [
      | ok u ↦ ok tt
      | err e ↦ err terminal_transcript_identity
    ]

unfoldable pub set_state : State → ℕ → Run → Run
set_state to now r = record r { state = to; updated_at = now }

unfoldable pub transition_record :
    List TransitionRecord → State → State → String → ℕ → TransitionRecord
transition_record journal from to reason now = record {
  seq = next_seq (map (λ t. t.seq) journal);
  from_state = some from;
  to_state = to;
  reason = reason;
  written_at = now;
}

unfoldable pub outbox_row : State → TransitionCommit → ℕ → OutboxRow
outbox_row to commit now = record {
  terminal_state = to;
  supervisor_pid = commit.supervisor_pid;
  supervisor_pgid = commit.supervisor_pgid;
  socket_path = commit.socket_path;
  token = commit.token;
  status = if commit.no_process then acknowledged else pending;
  diagnostic = "";
  created_at = now;
  acknowledged_at = if commit.no_process then some now else none;
}

-- INSERT INTO finalization_outbox, whose key is the run.
unfoldable pub insert_outbox : String → State → TransitionCommit → ℕ → Db → Result Db
insert_outbox run_id to commit now db =
    if not commit.terminal
    then ok db
    else if is_some (lookup run_id db.outbox)
    then err constraint
    else ok (record db { outbox = insert run_id (outbox_row to commit now) db.outbox })

unfoldable pub commit_transition : String → State → String → TransitionCommit → ℕ → Db → Result Db
commit_transition run_id to reason commit now db = do
  r ← or_fail (lookup run_id db.runs) run_not_found
  admit r to commit
  require_handoff (clear_transcript commit r) commit
  insert_outbox run_id to commit now (record db {
    runs = update run_id (λ row. set_state to now (clear_transcript commit row)) db.runs;
    transitions =
        insert run_id (transition_record (rows run_id db.transitions) r.state to reason now)
          db.transitions;
  })

abbrev pub plain : TransitionCommit
plain = record {
  terminal = false;
  no_process = false;
  supervisor_pid = pos 0;
  supervisor_pgid = pos 0;
  socket_path = "";
  token = "";
}

unfoldable pub transition : String → State → String → ℕ → Db → Result Db
transition run_id to reason now db =
    if is_terminal to
    then err terminal_requires_outbox
    else commit_transition run_id to reason plain now db

-- The outbox argument carries the supervisor's address.
unfoldable pub commit_terminal : String → State → String → TransitionCommit → ℕ → Db → Result Db
commit_terminal run_id to reason address now db =
    if not (is_terminal to)
    then err transition_not_terminal
    else commit_transition run_id to reason (record address { terminal = true; no_process = false })
        now db

unfoldable pub commit_no_process_failure : String → String → ℕ → Db → Result Db
commit_no_process_failure run_id reason now db =
    commit_transition run_id failed reason (record plain { terminal = true; no_process = true }) now
      db

-- The state that a request for cancellation leads to.
unfoldable pub cancel_target : State → State
cancel_target from = if same from running then cancelling else from

unfoldable pub mark_cancelled : State → ℕ → Run → Run
mark_cancelled to now r = record r { state = to; cancel_requested = true; updated_at = now }

unfoldable pub request_cancellation : String → ℕ → Db → Result (State × Db)
request_cancellation run_id now db = do
  r ← or_fail (lookup run_id db.runs) run_not_found
  fail_if (is_terminal r.state) (run_terminal r.state)
  let to = cancel_target r.state
  if r.cancel_requested && same to r.state
      then ok (to, db)
      else ok (
        to,
        (record db {
          runs = update run_id (mark_cancelled to now) db.runs;
          transitions =
              if same to r.state
              then db.transitions
              else insert run_id
                  (transition_record (rows run_id db.transitions) r.state to
                    "cancellation requested" now)
                  db.transitions;
        }),
      )
