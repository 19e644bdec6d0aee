-- ===== src/Store/Invariant.antt =====
-- What holds of a run's record between two operations.
pub mod Commit
pub mod Edits
pub mod Steps
use ananke.Prelude.{
  ℕ, suc, ◌+◌, String, ◌≡◌, refl, ◌∙◌, ◌⊎◌, true, false, ◌&&◌, Option, none, some, List, [], ◌∷◌,
  ◌++◌, map, arith, length,
}
use ananke.Int.{pos, ◌≤ℤ◌}
use ananke.Store.State.{State, created, completed, failed, same, is_terminal, can_transition}
use ananke.Store.Rows.{Run, TransitionRecord, OutboxRow, next_seq}
use ananke.Store.Sequence.{Consecutive, next_seq-Consecutive_zero, length-map}
use ananke.Store.Transitions.{transition_record}
use ananke.Store.RunJournal.{RunJournal}

-- The edges of the state machine, with the initial one, and the failure of a run that never
-- started a process, which may leave `created` at once.
abbrev pub Edge : Option State → State → Type 0
Edge none to = to ≡ created
Edge (some from) to = (can_transition from to ≡ true) ⊎ ((from ≡ created) × (to ≡ failed))

-- The transitions, numbered from `n`, lead from `from` to `s` along edges, each from the state that
-- the one before reached.
abbrev pub Chain : Option State → ℕ → List TransitionRecord → State → Type 0
Chain from n [] s = from ≡ some s
Chain from n (t ∷ ts) s =
    (t.seq ≡ n)
    × (t.from_state ≡ from)
    × Edge from t.to_state
    × Chain (some t.to_state) (suc n) ts s

-- An outbox row stands exactly beside a terminal state, and names it.
abbrev pub OutboxFits : Option OutboxRow → State → Type 0
OutboxFits none s = is_terminal s ≡ false
OutboxFits (some row) s = (is_terminal s ≡ true) × (row.terminal_state ≡ s)

pub record Recorded (r : Run) (j : RunJournal) : Type 0 where
  pub chain : Chain none 0 j.transitions r.state
  pub outbox_fits : OutboxFits j.outbox r.state
  pub uncancelled : (r.cancel_requested && same r.state completed) ≡ false
  pub consumed : pos 0 ≤ℤ r.transcript_consumed_offset
  pub handed_over :
      is_terminal r.state ≡ true
      → r.transcript_required ≡ true
      → (r.transcript_consumed_offset ≡ r.transcript_final_size)
  pub numbered : Consecutive 1 (map (λ e. e.seq) j.events)

-- A run that is not there has left nothing.
abbrev pub Absent : RunJournal → Type 0
Absent j = (j.transitions ≡ []) × (j.outbox ≡ none) × (j.events ≡ [])

abbrev pub Holds : Option Run → RunJournal → Type 0
Holds none j = Absent j
Holds (some r) j = Recorded r j

abbrev pub WellFormed : RunJournal → Type 0
WellFormed j = Holds j.run j

pub Chain-append :
    (from : Option State) (n : ℕ) (ts : List TransitionRecord) (s : State) (t : TransitionRecord)
    → Chain from n ts s
    → t.seq ≡ n + length ts
    → t.from_state ≡ some s
    → Edge (some s) t.to_state
    → Chain from n (ts ++ t ∷ []) t.to_state
Chain-append none n [] s t h e f g = cc
Chain-append (some x) n [] s t h e f g = ground arith
Chain-append from n (u ∷ ts) s t h e f g =
    (h.0, h.1, h.2, Chain-append (some u.to_state) (suc n) ts s t h.3 (omega arith) f g)

pub Chain-Consecutive :
    (from : Option State) (n : ℕ) (ts : List TransitionRecord) (s : State)
    → Chain from n ts s
    → Consecutive n (map (λ t. t.seq) ts)
Chain-Consecutive from n [] s h = tt
Chain-Consecutive from n (t ∷ ts) s h = (h.0, Chain-Consecutive (some t.to_state) (suc n) ts s h.3)

transitions-length :
    (ts : List TransitionRecord) (s : State)
    → Chain none 0 ts s
    → next_seq (map (λ t. t.seq) ts) ≡ length ts
transitions-length [] s h = cc
transitions-length (t ∷ ts) s h =
    next_seq-Consecutive_zero t.seq (map (λ u. u.seq) ts) (Chain-Consecutive none 0 (t ∷ ts) s h)
    ∙ length-map (λ (u : TransitionRecord). u.seq) (t ∷ ts)

-- The journal of a run goes on with a transition along an edge.
pub Chain-transition_record :
    (ts : List TransitionRecord) (from to : State) (reason : String) (now : ℕ)
    → Chain none 0 ts from
    → Edge (some from) to
    → Chain none 0 (ts ++ transition_record ts from to reason now ∷ []) to
unfolding transition_record
Chain-transition_record ts from to reason now h g =
    Chain-append none 0 ts from _ h (omega (arith, transitions-length ts from h)) refl g
