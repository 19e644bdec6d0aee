-- ===== src/Store/RunJournal.antt =====
-- The abstract specification of internal/store: what is recorded of one run, and what each
-- operation does to it, with no tables and no other runs.
use ananke.Prelude.{
  ℕ, String, Bool, true, false, ◌&&◌, not, Option, none, some, List, [], ◌∷◌, ◌++◌, ◌==◌,
  if◌then◌else◌, is_some,
}
use ananke.Int.{pos, ltb_ℤ, leb_ℤ, eqb_ℤ}
use ananke.Table.{lookup, rows}
use ananke.Store.Trim.{trim_space}
use ananke.Store.State.{State, failed, same, is_terminal}
use ananke.Store.Result.{
  Result, ok, err, ◌>>=◌, ◌>>◌, fail_if, or_fail, after, run_not_found, run_id_required,
  worker_path_required, transcript_identity_conflict, constraint, terminal_requires_outbox,
  transition_not_terminal, run_terminal, transcript_final_size_changed,
  transcript_offset_beyond_end, negative_size, outbox_not_found, diagnostic_required,
}
use ananke.Store.Rows.{
  Run, TransitionRecord, OutboxRow, Event, Db, no_identity, validate, same_identity, acknowledged,
  abandoned,
}
use ananke.Store.Transitions.{
  TransitionCommit, admit, clear_transcript, require_handoff, set_state, transition_record,
  outbox_row, plain, cancel_target, mark_cancelled,
}
use ananke.Store.Runs.{new_run, initial_transition, set_identity, set_pids}
use ananke.Store.Events.{within, advance_both, event_row, set_final_size, advance}
use ananke.Store.Outbox.{has_pending, settle}
use ananke.Store.Ops.{
  Op, found_project, found_workstream, create, move, finish, fail_unstarted, cancel,
  publish_identity, publish_pids, append, seal, consume, acknowledge, abandon,
}

pub record RunJournal : Type 0 where
  pub run : Option Run
  pub transitions : List TransitionRecord
  pub outbox : Option OutboxRow
  pub events : List Event

-- What the tables hold of a run.
unfoldable pub view : String → Db → RunJournal
view id db = record {
  run = lookup id db.runs;
  transitions = rows id db.transitions;
  outbox = lookup id db.outbox;
  events = rows id db.events;
}

unfoldable pub commit : State → String → TransitionCommit → ℕ → RunJournal → Result RunJournal
commit to reason c now j = do
  r ← or_fail j.run run_not_found
  admit r to c
  require_handoff (clear_transcript c r) c
  fail_if (c.terminal && is_some j.outbox) constraint
  ok (record j {
    run = some (set_state to now (clear_transcript c r));
    transitions = j.transitions ++ transition_record j.transitions r.state to reason now ∷ [];
    outbox = if c.terminal then some (outbox_row to c now) else j.outbox;
  })

unfoldable pub cancelled_journal : ℕ → RunJournal → Run → RunJournal
cancelled_journal now j r = record j {
  run = some (mark_cancelled (cancel_target r.state) now r);
  transitions =
      if same (cancel_target r.state) r.state
      then j.transitions
      else j.transitions
        ++ transition_record j.transitions r.state (cancel_target r.state) "cancellation requested"
            now
          ∷ [];
}

-- `parents` tells whether the project and the workstream of a new run are there.
unfoldable pub apply : Bool → String → Op → ℕ → RunJournal → Result RunJournal
apply parents id (found_project name root) now j = ok j
apply parents id (found_workstream project name) now j = ok j
apply parents id (create project workstream spec) now j = do
  fail_if (id == "") run_id_required
  fail_if (spec.worker_path == "") worker_path_required
  fail_if (is_some j.run) constraint
  fail_if (not parents) constraint
  ok (record j {
    run = some (new_run project workstream spec now);
    transitions = j.transitions ++ initial_transition now ∷ [];
  })
apply parents id (move to reason) now j =
    if is_terminal to then err terminal_requires_outbox else commit to reason plain now j
apply parents id (finish to reason address) now j =
    if not (is_terminal to)
    then err transition_not_terminal
    else commit to reason (record address { terminal = true; no_process = false }) now j
apply parents id (fail_unstarted reason) now j =
    commit failed reason (record plain { terminal = true; no_process = true }) now j
apply parents id cancel now j = do
  r ← or_fail j.run run_not_found
  fail_if (is_terminal r.state) (run_terminal r.state)
  if r.cancel_requested && same (cancel_target r.state) r.state
      then ok j
      else ok (cancelled_journal now j r)
apply parents id (publish_identity identity) now j = do
  validate identity
  r ← or_fail j.run run_not_found
  if same_identity r.transcript_identity identity
      then ok j
      else if not (same_identity r.transcript_identity no_identity)
      then err transcript_identity_conflict
      else ok (record j { run = some (set_identity identity now r) })
apply parents id (publish_pids s g w) now j = do
  r ← or_fail j.run run_not_found
  ok (record j { run = some (set_pids s g w now r) })
apply parents id (append type payload offset) now j = do
  fail_if (id == "") run_id_required
  r ← or_fail j.run constraint
  fail_if (not (within offset r)) transcript_offset_beyond_end
  ok (record j {
    run = some (advance_both offset now r);
    events = j.events ++ event_row j.events type payload offset now ∷ [];
  })
apply parents id (seal size) now j = do
  fail_if (ltb_ℤ size (pos 0)) negative_size
  r ← or_fail j.run run_not_found
  if leb_ℤ (pos 0) r.transcript_final_size
      then (if not (eqb_ℤ r.transcript_final_size size)
          then err transcript_final_size_changed
          else ok j)
      else ok (record j { run = some (set_final_size size now r) })
apply parents id (consume offset) now j = do
  fail_if (ltb_ℤ offset (pos 0)) negative_size
  r ← or_fail j.run run_not_found
  if within offset r
      then ok (record j { run = some (advance offset now r) })
      else err transcript_offset_beyond_end
apply parents id acknowledge now j = do
  row ← or_fail j.outbox outbox_not_found
  fail_if (not (has_pending (some row))) outbox_not_found
  ok (record j { outbox = some (settle acknowledged none now row) })
apply parents id (abandon reason) now j = do
  fail_if (trim_space reason == "") diagnostic_required
  row ← or_fail j.outbox outbox_not_found
  fail_if (not (has_pending (some row))) outbox_not_found
  ok (record j { outbox = some (settle abandoned (some (trim_space reason)) now row) })

unfoldable pub parents_exist : Op → Db → Bool
parents_exist (create project workstream spec) db =
    is_some (lookup project db.projects) && is_some (lookup workstream db.workstreams)
parents_exist _ db = true

unfoldable pub next : String → Op → ℕ → Bool → RunJournal → RunJournal
next id op now parents j = after j (apply parents id op now j)
