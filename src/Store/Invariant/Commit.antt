-- ===== src/Store/Invariant/Commit.antt =====
-- A committed transition keeps the record of its run well formed.
use ananke.Prelude.{
  ℕ, String, ◌≡◌, sym, ◌⊎◌, inl, inr, false, ◌&&◌, none, some, [], ◌∷◌, ◌++◌, arith, if◌then◌else◌,
  subst, Option-cases, is_some,
}
use ananke.Store.State.{
  State, created, failed, completed, same, is_terminal, can_transition-is_terminal, running,
  same-eq, unstarted-is_terminal, running-can_transition-failed, completed-is_terminal,
}
use ananke.Store.Result.{ok, after}
use ananke.Store.Rows.{Run}
use ananke.Store.Transitions.{
  TransitionCommit, transition_record, admit, clear_transcript, require_handoff, set_state,
  outbox_row,
}
use ananke.Store.RunJournal.{RunJournal, commit}
use ananke.Store.Invariant.{Edge, Recorded, Chain-transition_record, WellFormed, Holds}

module _ (r : Run) (to : State) (c : TransitionCommit) (now : ℕ)
    (admitted : admit r to c ≡ ok tt) where
  pub admit-Edge : Edge (some r.state) to
  unfolding admit
  admit-Edge = ground (
    arith,
    same-eq to failed,
    same-eq r.state created,
    same-eq r.state running,
    running-can_transition-failed,
  )

  pub admit-is_terminal : is_terminal r.state ≡ false
  unfolding admit
  admit-is_terminal = ground (
    arith,
    same-eq r.state created,
    same-eq r.state running,
    can_transition-is_terminal r.state to,
    unstarted-is_terminal,
  )

  admit_uncancelled :
      is_terminal to ≡ c.terminal → (r.cancel_requested && same to completed) ≡ false
  unfolding admit
  admit_uncancelled t = ground (arith, completed-is_terminal to)

abbrev pub committed : RunJournal → Run → State → String → TransitionCommit → ℕ → RunJournal
committed j r to reason c now = record j {
  run = some (set_state to now (clear_transcript c r));
  transitions = j.transitions ++ transition_record j.transitions r.state to reason now ∷ [];
  outbox = if c.terminal then some (outbox_row to c now) else j.outbox;
}

module _ (j : RunJournal) (r : Run) (to : State) (c : TransitionCommit) (now : ℕ) where
  committed-Recorded :
      (reason : String)
      → Recorded r j
      → is_terminal to ≡ c.terminal
      → admit r to c ≡ ok tt
      → require_handoff (clear_transcript c r) c ≡ ok tt
      → Recorded (set_state to now (clear_transcript c r)) (committed j r to reason c now)
  unfolding set_state clear_transcript require_handoff outbox_row
  committed-Recorded reason h t a q = record {
    chain = ground (
      arith,
      Chain-transition_record j.transitions r.state to reason now h.chain (admit-Edge r to c now a),
    );
    outbox_fits = ground (arith, admit-is_terminal r to c now a);
    uncancelled = ground (arith, admit_uncancelled r to c now a t);
    consumed = ground arith;
    handed_over = ground arith;
    numbered = h.numbered;
  }

  pub commit_cases :
      (reason : String)
      → j.run ≡ some r
      → (after j (commit to reason c now j) ≡ j)
        ⊎ (admit r to c ≡ ok tt)
          × (require_handoff (clear_transcript c r) c ≡ ok tt)
          × ((c.terminal && is_some j.outbox) ≡ false)
          × (after j (commit to reason c now j) ≡ committed j r to reason c now)
  unfolding commit
  commit_cases reason e = ground arith

pub commit_missing :
    (j : RunJournal) (to : State) (c : TransitionCommit) (now : ℕ) (reason : String)
    → j.run ≡ none
    → after j (commit to reason c now j) ≡ j
unfolding commit
commit_missing j to c now reason e = ground arith

pub commit-WellFormed :
    (j : RunJournal) (to : State) (c : TransitionCommit) (now : ℕ) (reason : String)
    → is_terminal to ≡ c.terminal
    → WellFormed j
    → WellFormed (after j (commit to reason c now j))
commit-WellFormed j to c now reason t h = elim (Option-cases j.run) [
  | inl e ↦ subst WellFormed (sym (commit_missing j to c now reason e)) h
  | inr (r, e) ↦ elim (commit_cases j r to c now reason e) [
    | inl unchanged ↦ subst WellFormed (sym unchanged) h
    | inr (a, q, _, p) ↦
        subst WellFormed (sym p)
          (committed-Recorded j r to c now reason (subst (λ o. Holds o j) e h) t a q)
  ]
]
