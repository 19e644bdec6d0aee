-- ===== src/Store/Invariant/Edits.antt =====
-- The operations that create a run, edit its row or append to its events keep its record well
-- formed.
use ananke.Prelude.{
  ℕ, String, ◌≡◌, refl, sym, subst, ◌∙◌, ◌⊎◌, inl, inr, Bool, true, false, none, some, List, [],
  ◌∷◌, ◌++◌, map, arith, Option-cases,
}
use ananke.Int.{ℤ, pos, leb_ℤ}
use ananke.Store.State.{same, is_terminal}
use ananke.Store.Result.{after}
use ananke.Store.Rows.{Run, RunSpec, Event, TranscriptFileIdentity}
use mathlib.Core.List.{map-append}
use ananke.Store.Runs.{new_run, initial_transition, set_identity, set_pids}
use ananke.Store.Events.{within, advance_both, event_row, set_final_size, advance}
use ananke.Store.Sequence.{Consecutive, Consecutive-append, next_seq-Consecutive}
use ananke.Store.Ops.{Op, create, publish_identity, publish_pids, append, seal, consume}
use ananke.Store.RunJournal.{RunJournal, apply}
use ananke.Store.Invariant.{Recorded, WellFormed, Holds}

module _ (j k : RunJournal) where
  pub unchanged-WellFormed : k ≡ j → WellFormed j → WellFormed k
  unchanged-WellFormed e h = subst WellFormed (sym e) h

  -- The operation fails and leaves the journal, or its guard passed and it made the edit.
  pub edited-WellFormed :
      {G : Type 0} (r : Run) (edit : RunJournal)
      → j.run ≡ some r
      → WellFormed j
      → (G → Recorded r j → WellFormed edit)
      → (k ≡ j) ⊎ G × (k ≡ edit)
      → WellFormed k
  edited-WellFormed r edit e h v (inl unchanged) = unchanged-WellFormed unchanged h
  edited-WellFormed r edit e h v (inr (g, p)) =
      subst WellFormed (sym p) (v g (subst (λ o. Holds o j) e h))

event_row-Consecutive :
    (events : List Event) (type : String) (payload : List ℕ) (offset : ℤ) (now : ℕ)
    → Consecutive 1 (map (λ e. e.seq) events)
    → Consecutive 1 (map (λ e. e.seq) (events ++ event_row events type payload offset now ∷ []))
unfolding event_row
event_row-Consecutive events type payload offset now c =
    rw (map-append (λ (e : Event). e.seq) events _) (
      Consecutive-append 1 _ (map (λ e. e.seq) events) c
        (next_seq-Consecutive 0 _ c refl ∙ omega arith))

module _ (parents : Bool) (id : String) (now : ℕ) (j : RunJournal) where
  abbrev pub result : Op → RunJournal
  result op = after j (apply parents id op now j)

  created_journal : String → String → RunSpec → RunJournal
  created_journal project workstream spec = record j {
    run = some (new_run project workstream spec now);
    transitions = j.transitions ++ initial_transition now ∷ [];
  }

  pub create-WellFormed :
      (project workstream : String) (spec : RunSpec)
      → WellFormed j
      → WellFormed (result (create project workstream spec))
  unfolding apply new_run initial_transition created_journal is_terminal same
  create-WellFormed project workstream spec h = elim (Option-cases j.run) [
    | inr (r, e) ↦ unchanged-WellFormed j _ (ground arith) h
    | inl e ↦ elim (cases e) [
      | inl unchanged ↦ unchanged-WellFormed j _ unchanged h
      | inr p ↦ subst WellFormed (sym p) (fresh (subst (λ o. Holds o j) e h))
    ]
  ]
    where
      cases :
          j.run ≡ none
          → (result (create project workstream spec) ≡ j)
            ⊎ (result (create project workstream spec) ≡ created_journal project workstream spec)
      cases e = ground arith

      fresh :
          (j.transitions ≡ []) × (j.outbox ≡ none) × (j.events ≡ [])
          → WellFormed (created_journal project workstream spec)
      fresh (t, o, v) = record {
        chain = ground arith;
        outbox_fits = ground arith;
        uncancelled = refl;
        consumed = omega arith;
        handed_over = λ a. cc;
        numbered = ground arith;
      }

  -- The operations that change a column or two of the run's row, and no more.
  row_edit-WellFormed :
      (op : Op) (G : Run → Type 0) (f : Run → Run)
      → (j.run ≡ none → result op ≡ j)
      → ((r : Run)
          → j.run ≡ some r
          → (result op ≡ j) ⊎ G r × (result op ≡ record j { run = some (f r) }))
      → ((r : Run) → G r → Recorded r j → Recorded (f r) (record j { run = some (f r) }))
      → WellFormed j
      → WellFormed (result op)
  row_edit-WellFormed op G f missing found v h = elim (Option-cases j.run) [
    | inl e ↦ unchanged-WellFormed j _ (missing e) h
    | inr (r, e) ↦ edited-WellFormed j _ r (record j { run = some (f r) }) e h (v r) (found r e)
  ]

  pub publish_identity-WellFormed :
      (identity : TranscriptFileIdentity)
      → WellFormed j
      → WellFormed (result (publish_identity identity))
  unfolding apply set_identity
  publish_identity-WellFormed identity =
      row_edit-WellFormed (publish_identity identity) (λ _. Unit) (set_identity identity now)
        (λ e. ground arith) (λ r e. ground arith) (λ r _ v. ground arith)

  pub publish_pids-WellFormed :
      (s g w : ℤ) → WellFormed j → WellFormed (result (publish_pids s g w))
  unfolding apply set_pids
  publish_pids-WellFormed s g w =
      row_edit-WellFormed (publish_pids s g w) (λ _. Unit) (set_pids s g w now) (λ e. ground arith)
        (λ r e. ground arith) (λ r _ v. ground arith)

  pub seal-WellFormed : (size : ℤ) → WellFormed j → WellFormed (result (seal size))
  unfolding apply set_final_size
  seal-WellFormed size =
      row_edit-WellFormed (seal size) (λ r. leb_ℤ (pos 0) r.transcript_final_size ≡ false)
        (set_final_size size now) (λ e. ground arith) (λ r e. ground arith) (λ r g v. ground arith)

  pub consume-WellFormed : (offset : ℤ) → WellFormed j → WellFormed (result (consume offset))
  unfolding apply advance within
  consume-WellFormed offset =
      row_edit-WellFormed (consume offset) (λ r. within offset r ≡ true) (advance offset now)
        (λ e. ground arith) (λ r e. ground arith) (λ r g v. ground arith)

  pub append-WellFormed :
      (type : String) (payload : List ℕ) (offset : ℤ)
      → WellFormed j
      → WellFormed (result (append type payload offset))
  unfolding apply advance_both within event_row
  append-WellFormed type payload offset h = elim (Option-cases j.run) [
    | inl e ↦ unchanged-WellFormed j _ (ground arith) h
    | inr (r, e) ↦
        edited-WellFormed j _ {G = within offset r ≡ true} r
          (record j {
            run = some (advance_both offset now r);
            events = j.events ++ event_row j.events type payload offset now ∷ [];
          })
          e h
          (λ g v. record {
            chain = v.chain;
            outbox_fits = v.outbox_fits;
            uncancelled = v.uncancelled;
            consumed = ground arith;
            handed_over = ground arith;
            numbered = event_row-Consecutive j.events type payload offset now v.numbered;
          })
          (ground arith)
  ]
