-- ===== src/Store/Invariant/Steps.antt =====
-- The operations on the outbox and on the state keep the record of a run well formed, and so does
-- every operation.
use ananke.Prelude.{
  ℕ, String, ◌≡◌, refl, sym, subst, ◌⊎◌, inl, inr, Bool, true, false, Option, none, some, arith,
  Option-cases, Bool-cases,
}
use ananke.Store.Trim.{trim_space}
use ananke.Store.State.{
  State, running, cancelling, failed, is_terminal, same-eq, same_refl, completed-is_terminal,
  cancel-Edge,
}
use ananke.Store.Result.{after}
use ananke.Store.Rows.{Run, OutboxRow, Acknowledged, acknowledged, abandoned}
use ananke.Store.Transitions.{TransitionCommit, cancel_target, mark_cancelled, plain}
use ananke.Store.Outbox.{settle}
use ananke.Store.Ops.{
  Op, found_project, found_workstream, create, move, finish, fail_unstarted, cancel,
  publish_identity, publish_pids, append, seal, consume, acknowledge, abandon,
}
use ananke.Store.RunJournal.{RunJournal, apply, cancelled_journal}
use ananke.Store.Invariant.{
  OutboxFits, Recorded, Chain-transition_record, WellFormed, Holds, Absent,
}
use ananke.Store.Invariant.Edits
use ananke.Store.Invariant.Edits.{unchanged-WellFormed, edited-WellFormed}
use ananke.Store.Invariant.Commit.{commit-WellFormed}

module _ (parents : Bool) (id : String) (now : ℕ) (j : RunJournal) where
  abbrev result : Op → RunJournal
  result op = after j (apply parents id op now j)

  settled_journal : Acknowledged → Option String → OutboxRow → RunJournal
  settled_journal status reason row = record j { outbox = some (settle status reason now row) }

  settle-OutboxFits :
      (status : Acknowledged) (reason : Option String) (row : OutboxRow) (s : State)
      → OutboxFits (some row) s
      → OutboxFits (some (settle status reason now row)) s
  unfolding settle
  settle-OutboxFits status none row s h = h
  settle-OutboxFits status (some d) row s h = h

  settled-WellFormed :
      (status : Acknowledged) (reason : Option String) (row : OutboxRow)
      → j.outbox ≡ some row
      → WellFormed j
      → WellFormed (settled_journal status reason row)
  unfolding settled_journal
  settled-WellFormed status reason row o h = elim (Option-cases j.run) [
    | inl e ↦ let absent : Absent j = subst (λ r. Holds r j) e h in cc (absent.1)
    | inr (r, e) ↦
        let v : Recorded r j = subst (λ x. Holds x j) e h in
        subst (λ x. Holds x (record j { outbox = some (settle status reason now row) })) (sym e)
          (record {
            chain = v.chain;
            outbox_fits =
                settle-OutboxFits status reason row r.state
                  (subst (λ x. OutboxFits x r.state) o v.outbox_fits);
            uncancelled = v.uncancelled;
            consumed = v.consumed;
            handed_over = v.handed_over;
            numbered = v.numbered;
          })
  ]

  settle-WellFormed :
      (op : Op) (status : Acknowledged) (reason : Option String)
      → (j.outbox ≡ none → result op ≡ j)
      → ((row : OutboxRow)
          → j.outbox ≡ some row
          → (result op ≡ j) ⊎ (result op ≡ settled_journal status reason row))
      → WellFormed j
      → WellFormed (result op)
  settle-WellFormed op status reason missing found h = elim (Option-cases j.outbox) [
    | inl o ↦ unchanged-WellFormed j _ (missing o) h
    | inr (row, o) ↦ elim (found row o) [
      | inl unchanged ↦ unchanged-WellFormed j _ unchanged h
      | inr p ↦ subst WellFormed (sym p) (settled-WellFormed status reason row o h)
    ]
  ]

  acknowledge-WellFormed : WellFormed j → WellFormed (result acknowledge)
  unfolding apply settled_journal
  acknowledge-WellFormed =
      settle-WellFormed acknowledge acknowledged none (λ o. ground arith) (λ row o. ground arith)

  abandon-WellFormed : (reason : String) → WellFormed j → WellFormed (result (abandon reason))
  unfolding apply settled_journal
  abandon-WellFormed reason =
      settle-WellFormed (abandon reason) abandoned (some (trim_space reason)) (λ o. ground arith)
        (λ row o. ground arith)

  mark_cancelled-Recorded :
      (r : Run)
      → is_terminal r.state ≡ false
      → Recorded r j
      → Recorded (mark_cancelled (cancel_target r.state) now r) (cancelled_journal now j r)
  unfolding mark_cancelled cancelled_journal cancel_target
  mark_cancelled-Recorded r g v = record {
    chain = ground (
      arith,
      same-eq r.state running,
      same-eq r.state cancelling,
      cancel-Edge,
      same_refl r.state,
      Chain-transition_record j.transitions r.state cancelling "cancellation requested" now v.chain,
    );
    outbox_fits = ground (arith, cancel-Edge);
    uncancelled = ground (arith, cancel-Edge, completed-is_terminal r.state);
    consumed = v.consumed;
    handed_over = ground (arith, cancel-Edge);
    numbered = v.numbered;
  }

  move-WellFormed :
      (to : State) (reason : String) → WellFormed j → WellFormed (result (move to reason))
  unfolding apply
  move-WellFormed to reason h = elim (Bool-cases (is_terminal to)) [
    | inl t ↦ unchanged-WellFormed j _ (ground arith) h
    | inr f ↦ subst WellFormed (ground arith) (commit-WellFormed j to plain now reason f h)
  ]

  finish-WellFormed :
      (to : State) (reason : String) (address : TransitionCommit)
      → WellFormed j
      → WellFormed (result (finish to reason address))
  unfolding apply
  finish-WellFormed to reason address h = elim (Bool-cases (is_terminal to)) [
    | inl t ↦ subst WellFormed (ground arith) (
        commit-WellFormed j to (record address { terminal = true; no_process = false }) now reason t
          h)
    | inr f ↦ unchanged-WellFormed j _ (ground arith) h
  ]

  fail_unstarted-WellFormed :
      (reason : String) → WellFormed j → WellFormed (result (fail_unstarted reason))
  unfolding apply is_terminal
  fail_unstarted-WellFormed reason h =
      commit-WellFormed j failed (record plain { terminal = true; no_process = true }) now reason
        refl h

  cancel-WellFormed : WellFormed j → WellFormed (result cancel)
  unfolding apply cancelled_journal
  cancel-WellFormed h = elim (Option-cases j.run) [
    | inl e ↦ unchanged-WellFormed j _ (ground arith) h
    | inr (r, e) ↦
        edited-WellFormed j _ {G = is_terminal r.state ≡ false} r (cancelled_journal now j r) e h
          (mark_cancelled-Recorded r) (ground arith)
  ]

  pub apply-WellFormed : (op : Op) → WellFormed j → WellFormed (result op)
  unfolding apply
  apply-WellFormed (found_project name root) h = h
  apply-WellFormed (found_workstream project name) h = h
  apply-WellFormed (create project workstream spec) h =
      Edits.create-WellFormed parents id now j project workstream spec h
  apply-WellFormed (move to reason) h = move-WellFormed to reason h
  apply-WellFormed (finish to reason address) h = finish-WellFormed to reason address h
  apply-WellFormed (fail_unstarted reason) h = fail_unstarted-WellFormed reason h
  apply-WellFormed cancel h = cancel-WellFormed h
  apply-WellFormed (publish_identity identity) h =
      Edits.publish_identity-WellFormed parents id now j identity h
  apply-WellFormed (publish_pids s g w) h = Edits.publish_pids-WellFormed parents id now j s g w h
  apply-WellFormed (append type payload offset) h =
      Edits.append-WellFormed parents id now j type payload offset h
  apply-WellFormed (seal size) h = Edits.seal-WellFormed parents id now j size h
  apply-WellFormed (consume offset) h = Edits.consume-WellFormed parents id now j offset h
  apply-WellFormed acknowledge h = acknowledge-WellFormed h
  apply-WellFormed (abandon reason) h = abandon-WellFormed reason h
