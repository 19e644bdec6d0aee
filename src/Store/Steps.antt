-- ===== src/Store/Steps.antt =====
-- The changes that an operation of internal/store may make to what is recorded of a run, as a step
-- relation, with the guard that each has passed.
use ananke.Prelude.{
  ℕ, String, ◌≡◌, sym, subst, ◌⊎◌, inl, inr, Bool, true, false, ◌&&◌, Option, none, some, List, [],
  ◌∷◌, ◌++◌, arith, is_some, Option-cases, Bool-cases,
}
use ananke.Int.{ℤ, pos, leb_ℤ}
use ananke.Store.Trim.{trim_space}
use ananke.Store.State.{State, failed, is_terminal}
use ananke.Store.Result.{ok, after}
use ananke.Store.Rows.{
  Run, RunSpec, OutboxRow, TranscriptFileIdentity, Acknowledged, acknowledged, abandoned,
  no_identity, same_identity,
}
use ananke.Store.Transitions.{TransitionCommit, admit, clear_transcript, require_handoff, plain}
use ananke.Store.Runs.{new_run, initial_transition, set_identity, set_pids}
use ananke.Store.Events.{within, advance_both, event_row, set_final_size, advance}
use ananke.Store.Outbox.{settle, has_pending}
use ananke.Store.Ops.{
  Op, found_project, found_workstream, create, move, finish, fail_unstarted, cancel,
  publish_identity, publish_pids, append, seal, consume, acknowledge, abandon,
}
use ananke.Store.RunJournal.{RunJournal, apply, commit, next, cancelled_journal}
use ananke.Store.Invariant.Commit.{committed, commit_cases, commit_missing}

-- A change of the run's row alone.
pub data RowStep (r : Run) : Run → Type 0 where
  identifies :
      (identity : TranscriptFileIdentity) (now : ℕ)
      → same_identity r.transcript_identity no_identity ≡ true
      → RowStep r (set_identity identity now r)
  records_pids : (s g w : ℤ) (now : ℕ) → RowStep r (set_pids s g w now r)
  seals :
      (size : ℤ) (now : ℕ)
      → leb_ℤ (pos 0) r.transcript_final_size ≡ false
      → RowStep r (set_final_size size now r)
  consumes : (offset : ℤ) (now : ℕ) → within offset r ≡ true → RowStep r (advance offset now r)

pub data Step (j : RunJournal) : RunJournal → Type 0 where
  stays : Step j j
  creates :
      (project workstream : String) (spec : RunSpec) (now : ℕ)
      → j.run ≡ none
      → Step j (record j {
        run = some (new_run project workstream spec now);
        transitions = j.transitions ++ initial_transition now ∷ [];
      })
  edits : (r r' : Run) → j.run ≡ some r → RowStep r r' → Step j (record j { run = some r' })
  appends :
      (r : Run) (type : String) (payload : List ℕ) (offset : ℤ) (now : ℕ)
      → j.run ≡ some r
      → within offset r ≡ true
      → Step j (record j {
        run = some (advance_both offset now r);
        events = j.events ++ event_row j.events type payload offset now ∷ [];
      })
  cancels :
      (r : Run) (now : ℕ)
      → j.run ≡ some r
      → is_terminal r.state ≡ false
      → Step j (cancelled_journal now j r)
  commits :
      (r : Run) (to : State) (reason : String) (c : TransitionCommit) (now : ℕ)
      → j.run ≡ some r
      → admit r to c ≡ ok tt
      → require_handoff (clear_transcript c r) c ≡ ok tt
      → (c.terminal && is_some j.outbox) ≡ false
      → Step j (committed j r to reason c now)
  settles :
      (row : OutboxRow) (status : Acknowledged) (reason : Option String) (now : ℕ)
      → j.outbox ≡ some row
      → has_pending (some row) ≡ true
      → Step j (record j { outbox = some (settle status reason now row) })

module _ (j k : RunJournal) where
  -- The operation fails and leaves the journal, or its guard passed and it made the step.
  Step-of :
      {G : Type 0} (edit : RunJournal) → (G → Step j edit) → (k ≡ j) ⊎ G × (k ≡ edit) → Step j k
  Step-of edit s (inl unchanged) = subst (Step j) (sym unchanged) stays
  Step-of edit s (inr (g, p)) = subst (Step j) (sym p) (s g)

  stay_of : k ≡ j → Step j k
  stay_of e = subst (Step j) (sym e) stays

commit-Step :
    (j : RunJournal) (to : State) (reason : String) (c : TransitionCommit) (now : ℕ)
    → Step j (after j (commit to reason c now j))
commit-Step j to reason c now = elim (Option-cases j.run) [
  | inl e ↦ stay_of j _ (commit_missing j to c now reason e)
  | inr (r, e) ↦ elim (commit_cases j r to c now reason e) [
    | inl unchanged ↦ stay_of j _ unchanged
    | inr (a, q, n, p) ↦ subst (Step j) (sym p) (commits r to reason c now e a q n)
  ]
]

module _ (parents : Bool) (id : String) (now : ℕ) (j : RunJournal) where
  abbrev result : Op → RunJournal
  result op = after j (apply parents id op now j)

  create-Step :
      (project workstream : String) (spec : RunSpec)
      → Step j (result (create project workstream spec))
  unfolding apply
  create-Step project workstream spec = elim (Option-cases j.run) [
    | inr (r, e) ↦ stay_of j _ (ground arith)
    | inl e ↦
        Step-of j _ {G = Unit {0}} _ (λ _. creates project workstream spec now e) (ground arith)
  ]

  publish_identity-Step :
      (identity : TranscriptFileIdentity) → Step j (result (publish_identity identity))
  unfolding apply
  publish_identity-Step identity = elim (Option-cases j.run) [
    | inl e ↦ stay_of j _ (ground arith)
    | inr (r, e) ↦
        Step-of j _ {G = same_identity r.transcript_identity no_identity ≡ true} _
          (λ g. edits r _ e (identifies identity now g)) (ground arith)
  ]

  publish_pids-Step : (s g w : ℤ) → Step j (result (publish_pids s g w))
  unfolding apply
  publish_pids-Step s g w = elim (Option-cases j.run) [
    | inl e ↦ stay_of j _ (ground arith)
    | inr (r, e) ↦
        Step-of j _ {G = Unit {0}} _ (λ _. edits r _ e (records_pids s g w now)) (ground arith)
  ]

  seal-Step : (size : ℤ) → Step j (result (seal size))
  unfolding apply
  seal-Step size = elim (Option-cases j.run) [
    | inl e ↦ stay_of j _ (ground arith)
    | inr (r, e) ↦
        Step-of j _ {G = leb_ℤ (pos 0) r.transcript_final_size ≡ false} _
          (λ g. edits r _ e (seals size now g)) (ground arith)
  ]

  consume-Step : (offset : ℤ) → Step j (result (consume offset))
  unfolding apply
  consume-Step offset = elim (Option-cases j.run) [
    | inl e ↦ stay_of j _ (ground arith)
    | inr (r, e) ↦
        Step-of j _ {G = within offset r ≡ true} _ (λ g. edits r _ e (consumes offset now g))
          (ground arith)
  ]

  append-Step :
      (type : String) (payload : List ℕ) (offset : ℤ) → Step j (result (append type payload offset))
  unfolding apply
  append-Step type payload offset = elim (Option-cases j.run) [
    | inl e ↦ stay_of j _ (ground arith)
    | inr (r, e) ↦
        Step-of j _ {G = within offset r ≡ true} _ (appends r type payload offset now e)
          (ground arith)
  ]

  cancel-Step : Step j (result cancel)
  unfolding apply
  cancel-Step = elim (Option-cases j.run) [
    | inl e ↦ stay_of j _ (ground arith)
    | inr (r, e) ↦ Step-of j _ {G = is_terminal r.state ≡ false} _ (cancels r now e) (ground arith)
  ]

  acknowledge-Step : Step j (result acknowledge)
  unfolding apply
  acknowledge-Step = elim (Option-cases j.outbox) [
    | inl e ↦ stay_of j _ (ground arith)
    | inr (row, e) ↦
        Step-of j _ {G = has_pending (some row) ≡ true} _ (settles row acknowledged none now e)
          (ground arith)
  ]

  abandon-Step : (reason : String) → Step j (result (abandon reason))
  unfolding apply
  abandon-Step reason = elim (Option-cases j.outbox) [
    | inl e ↦ stay_of j _ (ground arith)
    | inr (row, e) ↦
        Step-of j _ {G = has_pending (some row) ≡ true} _
          (settles row abandoned (some (trim_space reason)) now e) (ground arith)
  ]

  move-Step : (to : State) (reason : String) → Step j (result (move to reason))
  unfolding apply
  move-Step to reason = elim (Bool-cases (is_terminal to)) [
    | inl t ↦ stay_of j _ (ground arith)
    | inr f ↦ subst (Step j) (ground arith) (commit-Step j to reason plain now)
  ]

  finish-Step :
      (to : State) (reason : String) (address : TransitionCommit)
      → Step j (result (finish to reason address))
  unfolding apply
  finish-Step to reason address = elim (Bool-cases (is_terminal to)) [
    | inr f ↦ stay_of j _ (ground arith)
    | inl t ↦
        subst (Step j) (ground arith)
          (commit-Step j to reason (record address { terminal = true; no_process = false }) now)
  ]

  fail_unstarted-Step : (reason : String) → Step j (result (fail_unstarted reason))
  unfolding apply
  fail_unstarted-Step reason =
      commit-Step j failed reason (record plain { terminal = true; no_process = true }) now

  apply-Step : (op : Op) → Step j (result op)
  unfolding apply
  apply-Step (found_project name root) = stays
  apply-Step (found_workstream project name) = stays
  apply-Step (create project workstream spec) = create-Step project workstream spec
  apply-Step (move to reason) = move-Step to reason
  apply-Step (finish to reason address) = finish-Step to reason address
  apply-Step (fail_unstarted reason) = fail_unstarted-Step reason
  apply-Step cancel = cancel-Step
  apply-Step (publish_identity identity) = publish_identity-Step identity
  apply-Step (publish_pids s g w) = publish_pids-Step s g w
  apply-Step (append type payload offset) = append-Step type payload offset
  apply-Step (seal size) = seal-Step size
  apply-Step (consume offset) = consume-Step offset
  apply-Step acknowledge = acknowledge-Step
  apply-Step (abandon reason) = abandon-Step reason

pub next-Step :
    (id : String) (op : Op) (now : ℕ) (parents : Bool) (j : RunJournal)
    → Step j (next id op now parents j)
unfolding next
next-Step id op now parents j = apply-Step parents id now j op
