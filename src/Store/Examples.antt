-- ===== src/Store/Examples.antt =====
-- One run from its creation to its finalization, through the theorems on internal/store.
use ananke.Prelude.{
  if◌then◌else◌, ℕ, String, ◌≡◌, ◌≢◌, refl, true, false, not, ◌||◌, none, some, List, [], ◌∷◌, ◌++◌,
  map, arith, take,
}
use mathlib.Core.Option
use ananke.Int.{pos}
use ananke.Table.{lookup, rows, insert, update}
use ananke.Table.Unique.{filtered}
use ananke.Store.State.{running, cancelling, completed, same, is_terminal, can_transition}
use ananke.Store.Result.{ok}
use ananke.Store.Rows.{
  Run, RunSpec, OutboxRow, Db, TranscriptFileIdentity, pending, validate, next_seq,
}
use ananke.Store.Transitions.{
  plain, transition, commit_transition, commit_terminal, request_cancellation, admit,
  clear_transcript, require_handoff, set_state, transition_record, outbox_row, insert_outbox,
  cancel_target, mark_cancelled,
}
use ananke.Store.Runs.{
  create_project, create_workstream, create_run, new_run, initial_transition,
  set_transcript_identity, set_identity, set_run_supervisor, set_pids,
}
use ananke.Store.Events.{
  within, advance_both, event_row, append_event, seal_transcript, set_final_size, list_events,
}
use ananke.Store.Outbox.{acknowledge_outbox, has_pending, settle, list_active_runs}
use ananke.Store.Ops.{
  Op, found_project, found_workstream, create, move, finish, cancel, publish_identity, publish_pids,
  append, seal, acknowledge, Call, call, step, run_calls, empty,
}
use ananke.Store.RunJournal.{view, next, parents_exist}
use ananke.Store.Refinement.{view-step}
use ananke.Store.Invariant.{WellFormed}
use ananke.Store.Histories.{run_calls-WellFormed}
use ananke.Store.Progress.{Progress, run_calls-Progress}
use ananke.Store.Finish.{CanFinish, commit_terminal_exact}
use ananke.Store.Cancel.{request_cancellation_again, cancelled-ne-completed}
use ananke.Store.Settlement.{settle_call, settled_once}
use ananke.Store.Active.{is_settled, list_active_runs_exact}
use ananke.Store.Reading.{list_events_resume}
use ananke.Store.Sequence.{Consecutive}

-- What a run of the operations on concrete tables has to open.
evaluation : Unit {0}
unfolding acknowledge_outbox admit advance_both append_event call can_transition cancel_target
    clear_transcript commit_terminal commit_transition create_project create_run create_workstream
    empty event_row has_pending initial_transition insert insert_outbox is_terminal lookup
    mark_cancelled new_run next_seq outbox_row request_cancellation require_handoff rows run_calls
    same seal_transcript set_final_size set_identity set_pids set_run_supervisor set_state
    set_transcript_identity settle step transition transition_record update validate within
evaluation = tt

abbrev spec : RunSpec
spec = record {
  worker_path = "/bin/omp";
  worker_args = [];
  worker_env = [];
  transcript_path = "t.jsonl";
  socket_path = "s.sock";
  token = "secret";
  identity_path = "id.json";
  transcript_required = true;
}

abbrev identity : TranscriptFileIdentity
identity = record { device = pos 1; inode = pos 42 }

abbrev at : String → Op → ℕ → Call
at id op now = record { id = id; op = op; now = now }

-- The run has written five bytes of transcript, sealed and consumed, and its process has ended.
abbrev history : List Call
history =
    at "p" (found_project "Ananke" "/src") 1
    ∷ at "w" (found_workstream "p" "main") 2
    ∷ at "r" (create "p" "w" spec) 3
    ∷ at "r" (publish_identity identity) 4
    ∷ at "r" (publish_pids (pos 10) (pos 10) (pos 11)) 5
    ∷ at "r" (move running "launched") 6
    ∷ at "r" (append "message" (1 ∷ 2 ∷ []) (pos 3)) 7
    ∷ at "r" (append "message" (3 ∷ []) (pos 5)) 8
    ∷ at "r" (seal (pos 5)) 9
    ∷ []

abbrev reached : Db
reached = run_calls history empty

abbrev ready : Run
ready = record {
  project_id = "p";
  workstream_id = "w";
  state = running;
  spec = spec;
  transcript_identity = identity;
  supervisor_pid = pos 10;
  supervisor_pgid = pos 10;
  worker_pid = pos 11;
  committed_offset = pos 5;
  cancel_requested = false;
  transcript_consumed_offset = pos 5;
  transcript_final_size = pos 5;
  created_at = 3;
  updated_at = 9;
}

reached_ready : lookup "r" reached.runs ≡ some ready
unfolding evaluation
reached_ready = refl

view-step_example :
    view "r" (step (at "r" cancel 10) reached)
    ≡ next "r" cancel 10 (parents_exist cancel reached) (view "r" reached)
view-step_example = view-step (at "r" cancel 10) reached "r"

run_calls-WellFormed_example : WellFormed (view "r" reached)
run_calls-WellFormed_example = run_calls-WellFormed history "r"

abbrev ending : List Call
ending = at "r" (finish completed "exit 0" plain) 10 ∷ at "r" acknowledge 11 ∷ []

run_calls-Progress_example : Progress (view "r" reached) (view "r" (run_calls ending reached))
run_calls-Progress_example = run_calls-Progress ending reached "r"

commit_terminal_exact_example :
    ((db' : Db)
      → commit_terminal "r" completed "exit 0" plain 10 reached ≡ ok db'
      → CanFinish ready completed)
    × (CanFinish ready completed
        → (db' : Db) × (commit_terminal "r" completed "exit 0" plain 10 reached ≡ ok db')
          × (lookup "r" db'.runs ≡ some (set_state completed 10 ready))
          × (Option.map (λ (row : OutboxRow). row.status) (lookup "r" db'.outbox) ≡ some pending))
unfolding is_terminal
commit_terminal_exact_example =
    commit_terminal_exact "r" ready completed "exit 0" plain 10 reached
      (run_calls-WellFormed history "r") reached_ready refl

-- The condition of that commit is met.
ready-CanFinish : CanFinish ready completed
unfolding can_transition same
ready-CanFinish = record {
  edge = refl;
  uncancelled = refl;
  consumed = λ _. refl;
  sealed = λ _. omega arith;
  identified = λ _. omega arith;
}

abbrev asked : Db
asked = step (at "r" cancel 10) reached

asked_ok : request_cancellation "r" 10 reached ≡ ok (cancelling, asked)
unfolding evaluation
asked_ok = refl

request_cancellation_again_example : request_cancellation "r" 12 asked ≡ ok (cancelling, asked)
request_cancellation_again_example =
    request_cancellation_again "r" 10 12 reached asked cancelling asked_ok

abbrev cancelled_run : Run
cancelled_run = record ready { state = cancelling; cancel_requested = true; updated_at = 10 }

-- A call that would complete the run after the cancellation is refused.
asked_then_completed : lookup "r" (run_calls ending asked).runs ≡ some cancelled_run
unfolding evaluation
asked_then_completed = refl

cancelled-ne-completed_example : cancelling ≢ completed
cancelled-ne-completed_example =
    cancelled-ne-completed history ending "r" 10 asked cancelling cancelled_run asked_ok
      asked_then_completed

list_active_runs_exact_example :
    (lookup "r" (list_active_runs reached)
      ≡ filtered
          (λ r. not (is_terminal r.state) || has_pending (lookup "r" reached.outbox))
          (lookup "r" reached.runs))
    × (lookup "r" (list_active_runs reached)
        ≡ (if is_settled (lookup "r" reached.outbox) then none else lookup "r" reached.runs))
list_active_runs_exact_example = list_active_runs_exact history "r"

list_events_resume_example :
    (take 1 (list_events "r" 0 reached) ++ list_events "r" 1 reached ≡ list_events "r" 0 reached)
    × Consecutive 2 (map (λ e. e.seq) (list_events "r" 1 reached))
list_events_resume_example = list_events_resume "r" 1 reached (run_calls-WellFormed history "r")

abbrev finished : Db
finished = step (at "r" (finish completed "exit 0" plain) 10) reached

abbrev settled_db : Db
settled_db = step (at "r" acknowledge 11) finished

settled_ok : settle_call "r" none 11 finished ≡ ok settled_db
unfolding evaluation
settled_ok = refl

settled_once_example :
    (lookup "r" (run_calls ending settled_db).outbox ≡ lookup "r" settled_db.outbox)
    × ((db'' : Db) → settle_call "r" (some "dead") 12 (run_calls ending settled_db) ≢ ok db'')
settled_once_example =
    settled_once "r" none (some "dead") 11 12 ending finished settled_db settled_ok
