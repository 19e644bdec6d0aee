-- ===== src/Store/Finish.antt =====
-- When a terminal state can be committed, and what cancellation rules out.
use ananke.Prelude.{
  ℕ, String, ◌≡◌, refl, subst, inl, inr, true, false, ◌&&◌, Option, none, some, arith, eq_refl,
  Bool-cases,
}
use mathlib.Core.Option
use ananke.Int.{pos, ◌≤ℤ◌}
use ananke.Table.{lookup, rows, insert, update, lookup-insert, lookup-update}
use ananke.Store.State.{
  State, completed, same, is_terminal, can_transition, can_transition-is_terminal,
}
use ananke.Store.Result.{ok}
use ananke.Store.Rows.{Run, OutboxRow, Db, pending, TranscriptFileIdentity, validate}
use ananke.Store.Transitions.{
  TransitionCommit, commit_terminal, commit_transition, admit, require_handoff, clear_transcript,
  insert_outbox, outbox_row, transition_record, set_state,
}
use ananke.Store.RunJournal.{view}
use ananke.Store.Invariant.{OutboxFits, WellFormed, Holds}

-- What a process must have done for its run to end in `to`.
pub record CanFinish (r : Run) (to : State) : Type 0 where
  pub edge : can_transition r.state to ≡ true
  pub uncancelled : (same to completed && r.cancel_requested) ≡ false
  pub consumed :
      r.transcript_required ≡ true → r.transcript_consumed_offset ≡ r.transcript_final_size
  pub sealed : r.transcript_required ≡ true → pos 0 ≤ℤ r.transcript_final_size
  pub identified :
      r.transcript_required ≡ true
      → (pos 1 ≤ℤ r.transcript_identity.device) × (pos 1 ≤ℤ r.transcript_identity.inode)

abbrev terminal_commit : TransitionCommit → TransitionCommit
terminal_commit address = record address { terminal = true; no_process = false }

validate_iff :
    (i : TranscriptFileIdentity)
    → (validate i ≡ ok tt → (pos 1 ≤ℤ i.device) × (pos 1 ≤ℤ i.inode))
      × ((pos 1 ≤ℤ i.device) × (pos 1 ≤ℤ i.inode) → validate i ≡ ok tt)
unfolding validate
validate_iff i = (λ h. ground arith, λ h. ground arith)

guards-CanFinish :
    (r : Run) (to : State) (a : TransitionCommit)
    → admit r to (terminal_commit a) ≡ ok tt
    → require_handoff (clear_transcript (terminal_commit a) r) (terminal_commit a) ≡ ok tt
    → CanFinish r to
unfolding admit require_handoff clear_transcript
guards-CanFinish r to a h k = record {
  edge = ground arith;
  uncancelled = ground arith;
  consumed = λ t. ground arith;
  sealed = λ t. ground arith;
  identified = λ t. (validate_iff r.transcript_identity).0 (ground arith);
}

CanFinish-admit :
    (r : Run) (to : State) (a : TransitionCommit)
    → CanFinish r to
    → admit r to (terminal_commit a) ≡ ok tt
unfolding admit
CanFinish-admit r to a f = ground arith

CanFinish-require_handoff :
    (r : Run) (to : State) (a : TransitionCommit)
    → CanFinish r to
    → require_handoff (clear_transcript (terminal_commit a) r) (terminal_commit a) ≡ ok tt
unfolding require_handoff clear_transcript
CanFinish-require_handoff r to a f = ground (arith, (validate_iff r.transcript_identity).1)

no_outbox : (o : Option OutboxRow) (s : State) → OutboxFits o s → is_terminal s ≡ false → o ≡ none
no_outbox none s h f = refl
no_outbox (some row) s h f = cc (h.0)

module _ (id : String) (r : Run) (to : State) (reason : String) (a : TransitionCommit) (now : ℕ)
    (db : Db) where
  -- The database after the commit.
  finished : Db
  finished = record db {
    runs = update id (λ row. set_state to now (clear_transcript (terminal_commit a) row)) db.runs;
    transitions =
        insert id (transition_record (rows id db.transitions) r.state to reason now) db.transitions;
    outbox = insert id (outbox_row to (terminal_commit a) now) db.outbox;
  }

  commit_terminal-finished :
      lookup id db.runs ≡ some r
      → is_terminal to ≡ true
      → lookup id db.outbox ≡ none
      → CanFinish r to
      → commit_terminal id to reason a now db ≡ ok finished
  unfolding commit_terminal commit_transition insert_outbox finished
  commit_terminal-finished e t o f =
      ground (arith, CanFinish-admit r to a f, CanFinish-require_handoff r to a f)

  finished_rows :
      lookup id db.runs ≡ some r
      → lookup id db.outbox ≡ none
      → (lookup id finished.runs ≡ some (set_state to now r))
        × (lookup id finished.outbox ≡ some (outbox_row to (terminal_commit a) now))
  unfolding finished clear_transcript
  finished_rows e o = ground (
    arith,
    eq_refl id,
    lookup-update id id (λ row. set_state to now (clear_transcript (terminal_commit a) row))
        db.runs,
    lookup-insert id id (outbox_row to (terminal_commit a) now) db.outbox,
  )

  commit_terminal-CanFinish :
      {db' : Db}
      → lookup id db.runs ≡ some r
      → commit_terminal id to reason a now db ≡ ok db'
      → CanFinish r to
  unfolding commit_terminal commit_transition
  commit_terminal-CanFinish e h = guards-CanFinish r to a (ground arith) (ground arith)

  run-no_outbox :
      WellFormed (view id db)
      → lookup id db.runs ≡ some r
      → CanFinish r to
      → lookup id db.outbox ≡ none
  unfolding view
  run-no_outbox h e f =
      no_outbox (lookup id db.outbox) r.state (subst (λ o. Holds o (view id db)) e h).outbox_fits
        (elim (Bool-cases (is_terminal r.state)) [
          | inl t ↦ cc (can_transition-is_terminal r.state to t, f.edge)
          | inr n ↦ n
        ])

outbox_status :
    (to : State) (a : TransitionCommit) (now : ℕ) (o : Option OutboxRow)
    → o ≡ some (outbox_row to (terminal_commit a) now)
    → Option.map (λ (row : OutboxRow). row.status) o ≡ some pending
unfolding outbox_row
outbox_status to a now o e = ground arith

-- A process-backed run that is recorded and well formed can be committed to a terminal state exactly
-- if the state machine has the edge, no requested cancellation would be completed over, and, where a
-- transcript is required, its final size is sealed, every byte of it is consumed, and the file's
-- identity is known; the commit then sets the state and adds the pending outbox row in one
-- transaction.
pub commit_terminal_exact :
    (id : String) (r : Run) (to : State) (reason : String) (a : TransitionCommit) (now : ℕ)
    (db : Db)
    → WellFormed (view id db)
    → lookup id db.runs ≡ some r
    → is_terminal to ≡ true
    → ((db' : Db) → commit_terminal id to reason a now db ≡ ok db' → CanFinish r to)
      × (CanFinish r to
          → (db' : Db) × (commit_terminal id to reason a now db ≡ ok db')
            × (lookup id db'.runs ≡ some (set_state to now r))
            × (Option.map (λ (row : OutboxRow). row.status) (lookup id db'.outbox) ≡ some pending))
commit_terminal_exact id r to reason a now db h e t = (
  λ db' c. commit_terminal-CanFinish id r to reason a now db {db' = db'} e c,
  λ f.
      let o = run-no_outbox id r to reason a now db h e f in
      let (runs, outbox) = finished_rows id r to reason a now db e o in
      (
        finished id r to reason a now db,
        commit_terminal-finished id r to reason a now db e t o f,
        runs,
        outbox_status to a now _ outbox,
      ),
)
