-- ===== src/Store/Progress.antt =====
-- What no operation of internal/store takes back: histories of one run as sequences of steps.
use ananke.Prelude.{
  ℕ, String, ◌≡◌, refl, sym, subst, ◌∙◌, Bool, true, false, Option, none, some, List, [], ◌∷◌, ◌++◌,
  arith, ◌==◌, eq_iff, ◌&&◌, is_some, if◌then◌else◌,
}
use ananke.Int.{◌≤ℤ◌}
use mathlib.Core.List.{append_assoc, append-nil}
use ananke.Store.State.{same, is_terminal}
use ananke.Store.Rows.{Run, OutboxRow, Db, Acknowledged}
use ananke.Store.Transitions.{
  clear_transcript, set_state, mark_cancelled, cancel_target, outbox_row,
}
use ananke.Store.Runs.{new_run, set_identity, set_pids}
use ananke.Store.Events.{advance_both, set_final_size, advance}
use ananke.Store.Outbox.{has_pending, is_pending, settle}
use ananke.Store.Ops.{Call, step, run_calls}
use ananke.Store.RunJournal.{RunJournal, next, cancelled_journal, view, parents_exist}
use ananke.Store.Refinement.{view-step}
use ananke.Store.Invariant.Commit.{admit-is_terminal}
use ananke.Store.Steps.{
  RowStep, identifies, records_pids, seals, consumes, Step, stays, creates, edits, appends, cancels,
  commits, settles, next-Step,
}

pub record RunProgress (r r' : Run) : Type 0 where
  pub spec_kept : r'.spec ≡ r.spec
  pub offset_grows : r.committed_offset ≤ℤ r'.committed_offset
  pub terminal_kept : is_terminal r.state ≡ true → r'.state ≡ r.state
  pub cancel_kept : r.cancel_requested ≡ true → r'.cancel_requested ≡ true

abbrev pub RunAdvances : Option Run → Option Run → Type 0
RunAdvances none r' = Unit
RunAdvances (some r) none = ⊥
RunAdvances (some r) (some r') = RunProgress r r'

abbrev pub OutboxAdvances : Option OutboxRow → Option OutboxRow → Type 0
OutboxAdvances none o' = Unit
OutboxAdvances (some o) none = ⊥
OutboxAdvances (some o) (some o') =
    (o'.terminal_state ≡ o.terminal_state) × (is_pending o.status ≡ false → o' ≡ o)

-- `ys` goes on where `xs` ends.
abbrev pub Extends : {A : Type 0} → List A → List A → Type 0
Extends {A} xs ys = (zs : List A) × (ys ≡ xs ++ zs)

pub record Progress (j k : RunJournal) : Type 0 where
  pub run_advances : RunAdvances j.run k.run
  pub outbox_advances : OutboxAdvances j.outbox k.outbox
  pub transitions_extend : Extends j.transitions k.transitions
  pub events_extend : Extends j.events k.events

Extends-refl : {A : Type 0} (xs : List A) → Extends xs xs
Extends-refl xs = ([], sym (append-nil xs))

pub Extends-trans : {A : Type 0} (xs ys zs : List A) → Extends xs ys → Extends ys zs → Extends xs zs
Extends-trans xs ys zs (a, e) (b, f) = (a ++ b, rw (f, e) (append_assoc xs a b))

RunAdvances-refl : (o : Option Run) → RunAdvances o o
RunAdvances-refl none = tt
RunAdvances-refl (some r) = ground arith

RunAdvances-trans : (o p q : Option Run) → RunAdvances o p → RunAdvances p q → RunAdvances o q
RunAdvances-trans none p q h k = tt
RunAdvances-trans (some r) none q h k = absurd h
RunAdvances-trans (some r) (some s) none h k = absurd k
RunAdvances-trans (some r) (some s) (some t) h k = record {
  spec_kept = k.spec_kept ∙ h.spec_kept;
  offset_grows = omega arith;
  terminal_kept = λ e.
      k.terminal_kept (subst (λ x. is_terminal x ≡ true) (sym (h.terminal_kept e)) e)
      ∙ h.terminal_kept e;
  cancel_kept = λ e. k.cancel_kept (h.cancel_kept e);
}

OutboxAdvances-refl : (o : Option OutboxRow) → OutboxAdvances o o
OutboxAdvances-refl none = tt
OutboxAdvances-refl (some o) = (refl, λ _. refl)

OutboxAdvances-trans :
    (o p q : Option OutboxRow) → OutboxAdvances o p → OutboxAdvances p q → OutboxAdvances o q
OutboxAdvances-trans none p q h k = tt
OutboxAdvances-trans (some r) none q h k = absurd h
OutboxAdvances-trans (some r) (some s) none h k = absurd k
OutboxAdvances-trans (some r) (some s) (some t) h k =
    (k.0 ∙ h.0, λ e. k.1 (subst (λ x. is_pending x.status ≡ false) (sym (h.1 e)) e) ∙ h.1 e)

Progress-refl : (j : RunJournal) → Progress j j
Progress-refl j = record {
  run_advances = RunAdvances-refl j.run;
  outbox_advances = OutboxAdvances-refl j.outbox;
  transitions_extend = Extends-refl j.transitions;
  events_extend = Extends-refl j.events;
}

pub Progress-trans : {j k l : RunJournal} → Progress j k → Progress k l → Progress j l
Progress-trans {j} {k} {l} p q = record {
  run_advances = RunAdvances-trans j.run k.run l.run p.run_advances q.run_advances;
  outbox_advances =
      OutboxAdvances-trans j.outbox k.outbox l.outbox p.outbox_advances q.outbox_advances;
  transitions_extend =
      Extends-trans j.transitions k.transitions l.transitions p.transitions_extend
        q.transitions_extend;
  events_extend = Extends-trans j.events k.events l.events p.events_extend q.events_extend;
}

RowStep-RunProgress : {r r' : Run} → RowStep r r' → RunProgress r r'
unfolding set_identity set_pids set_final_size advance
RowStep-RunProgress (identifies identity now g) = ground arith
RowStep-RunProgress (records_pids s g w now) = ground arith
RowStep-RunProgress (seals size now g) = ground arith
RowStep-RunProgress (consumes offset now g) = ground arith

-- A step of the run's row keeps the rest.
with_run :
    (j : RunJournal) (r r' : Run) → j.run ≡ some r → RunProgress r r' → RunAdvances j.run (some r')
with_run j r r' e p = subst (λ o. RunAdvances o (some r')) (sym e) p

Extends-if : {A : Type 0} (b : Bool) (xs zs : List A) → Extends xs (if b then xs else xs ++ zs)
Extends-if true xs zs = Extends-refl xs
Extends-if false xs zs = (zs, refl)

OutboxAdvances-insert :
    (b : Bool) (o : Option OutboxRow) (row : OutboxRow)
    → (b && is_some o) ≡ false
    → OutboxAdvances o (if b then some row else o)
OutboxAdvances-insert true none row h = tt
OutboxAdvances-insert true (some o) row h = cc
OutboxAdvances-insert false o row h = OutboxAdvances-refl o

settle-OutboxAdvances :
    (row : OutboxRow) (status : Acknowledged) (reason : Option String) (now : ℕ)
    → has_pending (some row) ≡ true
    → OutboxAdvances (some row) (some (settle status reason now row))
unfolding settle has_pending
settle-OutboxAdvances row status none now g = (refl, λ e. cc)
settle-OutboxAdvances row status (some d) now g = (refl, λ e. cc)

Step-Progress : {j k : RunJournal} → Step j k → Progress j k
unfolding cancelled_journal mark_cancelled set_state clear_transcript advance_both
Step-Progress {j} stays = Progress-refl j
Step-Progress {j} (creates project workstream spec now e) = record {
  run_advances = subst (λ o. RunAdvances o (some (new_run project workstream spec now))) (sym e) tt;
  outbox_advances = OutboxAdvances-refl j.outbox;
  transitions_extend = (_, refl);
  events_extend = Extends-refl j.events;
}
Step-Progress {j} (edits r r' e s) = record {
  run_advances = with_run j r r' e (RowStep-RunProgress s);
  outbox_advances = OutboxAdvances-refl j.outbox;
  transitions_extend = Extends-refl j.transitions;
  events_extend = Extends-refl j.events;
}
Step-Progress {j} (appends r type payload offset now e g) = record {
  run_advances = with_run j r _ e (ground arith);
  outbox_advances = OutboxAdvances-refl j.outbox;
  transitions_extend = Extends-refl j.transitions;
  events_extend = (_, refl);
}
Step-Progress {j} (cancels r now e g) = record {
  run_advances = with_run j r _ e (ground arith);
  outbox_advances = OutboxAdvances-refl j.outbox;
  transitions_extend = Extends-if (same (cancel_target r.state) r.state) j.transitions _;
  events_extend = Extends-refl j.events;
}
Step-Progress {j} (commits r to reason c now e a q n) = record {
  run_advances = with_run j r _ e (ground (arith, admit-is_terminal r to c now a));
  outbox_advances = OutboxAdvances-insert c.terminal j.outbox (outbox_row to c now) n;
  transitions_extend = (_, refl);
  events_extend = Extends-refl j.events;
}
Step-Progress {j} (settles row status reason now o g) = record {
  run_advances = RunAdvances-refl j.run;
  outbox_advances =
      subst (λ x. OutboxAdvances x (some (settle status reason now row))) (sym o)
        (settle-OutboxAdvances row status reason now g);
  transitions_extend = Extends-refl j.transitions;
  events_extend = Extends-refl j.events;
}

pub next-Progress : (c : Call) (db : Db) (id : String) → Progress (view id db) (view id (step c db))
next-Progress c db id =
    subst (Progress (view id db)) (sym (view-step c db id)) (pick (c.id == id) refl)
  where
    pick :
        (b : Bool)
        → (c.id == id) ≡ b
        → Progress
            (view id db)
            (if b then next c.id c.op c.now (parents_exist c.op db) (view c.id db) else view id db)
    pick true e =
        subst
          (λ x. Progress (view x db) (next c.id c.op c.now (parents_exist c.op db) (view c.id db)))
          ((eq_iff c.id id).0 e) (Step-Progress (next-Step c.id c.op c.now _ (view c.id db)))
    pick false e = Progress-refl (view id db)

-- Whatever calls follow, on any runs, in any order, and whether they succeed or fail: a run that is
-- there stays, with its launch configuration; its committed offset never rewinds; a terminal state
-- is final; a requested cancellation stays requested; its outbox row, once there, stays, keeps its
-- terminal state, and is never changed once it is acknowledged or abandoned; and its transitions
-- and events are only appended to.
pub run_calls-Progress :
    (cs : List Call) (db : Db) (id : String) → Progress (view id db) (view id (run_calls cs db))
unfolding run_calls
run_calls-Progress [] db id = Progress-refl (view id db)
run_calls-Progress (c ∷ cs) db id =
    Progress-trans (next-Progress c db id) (run_calls-Progress cs (step c db) id)
