-- ===== src/Store/Refinement.antt =====
-- The operations on the tables implement the specification of one run.
use ananke.Prelude.{
  ℕ, String, List, ◌≡◌, none, some, true, false, arith, ◌==◌, eq_iff, if◌then◌else◌, Option-cases,
  inl, inr,
}
use ananke.Int.{ℤ}
use ananke.Table.{lookup, rows, rows-insert, lookup-insert, lookup-update}
use ananke.Store.Trim.{trim_space}
use ananke.Store.State.{State}
use ananke.Store.Result.{after}
use ananke.Store.Rows.{Db, RunSpec, TranscriptFileIdentity, acknowledged, abandoned}
use ananke.Store.Transitions.{
  TransitionCommit, commit_transition, insert_outbox, set_state, clear_transcript, outbox_row,
  transition_record, plain, request_cancellation, cancel_target, mark_cancelled, transition,
  commit_terminal, commit_no_process_failure,
}
use ananke.Store.Runs.{
  create_project, create_workstream, create_run, new_run, initial_transition,
  set_transcript_identity, set_identity, set_run_supervisor, set_pids,
}
use ananke.Store.Events.{
  append_event, event_row, advance_both, seal_transcript, set_final_size,
  advance_transcript_consumed, advance,
}
use ananke.Store.Outbox.{acknowledge_outbox, abandon_outbox, settle, has_pending}
use ananke.Store.Ops.{
  Op, found_project, found_workstream, create, move, finish, fail_unstarted, cancel,
  publish_identity, publish_pids, append, seal, consume, acknowledge, abandon, Call, call, step,
}
use ananke.Store.RunJournal.{view, commit, cancelled_journal, apply, parents_exist, next}

-- A step on the tables is a step of the specification for its run, and none for another.
abbrev pub Implements : String → Op → ℕ → Db → String → Type 0
Implements id op now db j =
    view j (after db (call id op now db))
    ≡ (if id == j then next id op now (parents_exist op db) (view id db) else view j db)

module _ (id : String) (now : ℕ) (db : Db) (j : String) where
  commit_transition-commit :
      (to : State) (reason : String) (c : TransitionCommit)
      → view j (after db (commit_transition id to reason c now db))
        ≡ (if id == j then after (view id db) (commit to reason c now (view id db)) else view j db)
  unfolding view commit commit_transition insert_outbox
  commit_transition-commit to reason c = elim (Option-cases (lookup id db.runs)) [
    | inl missing ↦ ground (arith, eq_iff id j)
    | inr (r, there) ↦ ground (
      arith,
      eq_iff id j,
      rows-insert id j (transition_record (rows id db.transitions) r.state to reason now)
          db.transitions,
      lookup-insert id j (outbox_row to c now) db.outbox,
      lookup-update id j (λ row. set_state to now (clear_transcript c row)) db.runs,
    )
  ]

  found_project-Implements : (name root : String) → Implements id (found_project name root) now db j
  unfolding view call next apply create_project
  found_project-Implements name root = ground (arith, eq_iff id j)

  found_workstream-Implements :
      (project name : String) → Implements id (found_workstream project name) now db j
  unfolding view call next apply create_workstream
  found_workstream-Implements project name = ground (arith, eq_iff id j)

  create-Implements :
      (project workstream : String) (spec : RunSpec)
      → Implements id (create project workstream spec) now db j
  unfolding view call next apply create_run parents_exist
  create-Implements project workstream spec = ground (
    arith,
    eq_iff id j,
    rows-insert id j (initial_transition now) db.transitions,
    lookup-insert id j (new_run project workstream spec now) db.runs,
  )

  move-Implements : (to : State) (reason : String) → Implements id (move to reason) now db j
  unfolding call next apply transition
  move-Implements to reason = ground (arith, eq_iff id j, commit_transition-commit to reason plain)

  finish-Implements :
      (to : State) (reason : String) (address : TransitionCommit)
      → Implements id (finish to reason address) now db j
  unfolding call next apply commit_terminal
  finish-Implements to reason address = ground (
    arith,
    eq_iff id j,
    commit_transition-commit to reason (record address { terminal = true; no_process = false }),
  )

  fail_unstarted-Implements : (reason : String) → Implements id (fail_unstarted reason) now db j
  unfolding call next apply commit_no_process_failure
  fail_unstarted-Implements reason = commit_transition-commit _ reason _

  cancel-Implements : Implements id cancel now db j
  unfolding view call next apply request_cancellation cancelled_journal
  cancel-Implements = elim (Option-cases (lookup id db.runs)) [
    | inl missing ↦ ground (arith, eq_iff id j)
    | inr (r, there) ↦ ground (
      arith,
      eq_iff id j,
      rows-insert id j
          (transition_record (rows id db.transitions) r.state (cancel_target r.state)
            "cancellation requested" now)
          db.transitions,
      lookup-update id j (mark_cancelled (cancel_target r.state) now) db.runs,
    )
  ]

  publish_identity-Implements :
      (identity : TranscriptFileIdentity) → Implements id (publish_identity identity) now db j
  unfolding view call next apply set_transcript_identity
  publish_identity-Implements identity =
      ground (arith, eq_iff id j, lookup-update id j (set_identity identity now) db.runs)

  publish_pids-Implements : (s g w : ℤ) → Implements id (publish_pids s g w) now db j
  unfolding view call next apply set_run_supervisor
  publish_pids-Implements s g w =
      ground (arith, eq_iff id j, lookup-update id j (set_pids s g w now) db.runs)

  append-Implements :
      (type : String) (payload : List ℕ) (offset : ℤ)
      → Implements id (append type payload offset) now db j
  unfolding view call next apply append_event
  append-Implements type payload offset = ground (
    arith,
    eq_iff id j,
    rows-insert id j (event_row (rows id db.events) type payload offset now) db.events,
    lookup-update id j (advance_both offset now) db.runs,
  )

  seal-Implements : (size : ℤ) → Implements id (seal size) now db j
  unfolding view call next apply seal_transcript
  seal-Implements size =
      ground (arith, eq_iff id j, lookup-update id j (set_final_size size now) db.runs)

  consume-Implements : (offset : ℤ) → Implements id (consume offset) now db j
  unfolding view call next apply advance_transcript_consumed
  consume-Implements offset =
      ground (arith, eq_iff id j, lookup-update id j (advance offset now) db.runs)

  acknowledge-Implements : Implements id acknowledge now db j
  unfolding view call next apply acknowledge_outbox has_pending
  acknowledge-Implements =
      ground (arith, eq_iff id j, lookup-update id j (settle acknowledged none now) db.outbox)

  abandon-Implements : (reason : String) → Implements id (abandon reason) now db j
  unfolding view call next apply abandon_outbox has_pending
  abandon-Implements reason = ground (
    arith,
    eq_iff id j,
    lookup-update id j (settle abandoned (some (trim_space reason)) now) db.outbox,
  )

  call-Implements : (op : Op) → Implements id op now db j
  call-Implements (found_project name root) = found_project-Implements name root
  call-Implements (found_workstream project name) = found_workstream-Implements project name
  call-Implements (create project workstream spec) = create-Implements project workstream spec
  call-Implements (move to reason) = move-Implements to reason
  call-Implements (finish to reason address) = finish-Implements to reason address
  call-Implements (fail_unstarted reason) = fail_unstarted-Implements reason
  call-Implements cancel = cancel-Implements
  call-Implements (publish_identity identity) = publish_identity-Implements identity
  call-Implements (publish_pids s g w) = publish_pids-Implements s g w
  call-Implements (append type payload offset) = append-Implements type payload offset
  call-Implements (seal size) = seal-Implements size
  call-Implements (consume offset) = consume-Implements offset
  call-Implements acknowledge = acknowledge-Implements
  call-Implements (abandon reason) = abandon-Implements reason

-- Every step of the store on its tables is, for each run, the step of the specification on what
-- the tables hold of that run: the run that the call names is advanced by the specification, errors
-- leaving it as it was, and every other run is left alone.
pub view-step :
    (c : Call) (db : Db) (j : String)
    → view j (step c db) ≡ (
        if c.id == j
        then next c.id c.op c.now (parents_exist c.op db) (view c.id db)
        else view j db)
unfolding step
view-step c db j = call-Implements c.id c.now db j c.op
