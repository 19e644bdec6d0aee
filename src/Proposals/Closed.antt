-- ===== src/Proposals/Closed.antt =====
-- Proposals of internal/store/proposals.go that are approved or withdrawn stay so.
use ananke.Prelude.{
  String, ◌≡◌, refl, sym, ap, ◌∙◌, inl, inr, true, false, some, none, List, [], ◌∷◌, arith, keep,
  ◌==◌, eq_iff, Bool-cases,
}
use ananke.Table.{lookup}
use ananke.Proposals.Rows.{is_open, Proposal, Db, Env, after}
use ananke.Proposals.Pairs.{pairs}
use ananke.Proposals.Changes.{Change, creation, appending, deciding, withdrawing}
use ananke.Proposals.Calls.{Call, call, run_calls, empty}
use ananke.Proposals.Outcomes.{call-Outcome}
use ananke.Proposals.Invariant.{SameAt, of_proposal}
use ananke.Proposals.Invariant.Revisions.{Creation-elsewhere, Appending-elsewhere}
use ananke.Proposals.Invariant.Decisions.{
  Deciding-elsewhere, Withdrawing-elsewhere, is_current-is_open,
}
use ananke.Proposals.Invariant.Histories.{
  WellFormed, call-WellFormed, run_calls-WellFormed_proposals,
}

-- The proposal that is found under an id is no other's.
at_own :
    (own id : String) (db : Db) (p q : Proposal)
    → lookup own db.proposals ≡ some q
    → lookup id db.proposals ≡ some p
    → is_open p.state ≡ false
    → is_open q.state ≡ true
    → (own == id) ≡ false
at_own own id db p q e f c o = elim (Bool-cases (own == id)) [
  | inl t ↦
      let same : own ≡ id = (eq_iff own id).0 t in
      let both : some q ≡ some p = sym e ∙ ap (λ k. lookup k db.proposals) same ∙ f in ground arith
  | inr g ↦ g
]

pub Change-closed :
    (db db' : Db) (id : String) (p : Proposal)
    → Change db db'
    → lookup id db.proposals ≡ some p
    → is_open p.state ≡ false
    → SameAt db db' id
Change-closed db db' id p (creation c) found closed =
    Creation-elsewhere db db' c id (elim (Bool-cases (c.names.proposal_id == id)) [
      | inl t ↦
          let same : c.names.proposal_id ≡ id = (eq_iff c.names.proposal_id id).0 t in
          let both : none ≡ some p = sym c.absent ∙ ap (λ k. lookup k db.proposals) same ∙ found in
          ground arith
      | inr g ↦ g
    ])
Change-closed db db' id p (appending c) found closed =
    Appending-elsewhere db db' c id
      (at_own c.names.proposal_id id db p c.before c.stands found closed c.was_open)
Change-closed db db' id p (deciding c) found closed = Deciding-elsewhere db db' c id (
    at_own c.names.proposal_id id db p c.before c.stands found closed
      (is_current-is_open c.names.revision c.names.revision_hash c.before c.was_current))
Change-closed db db' id p (withdrawing c) found closed = Withdrawing-elsewhere db db' c id (
    at_own c.names.proposal_id id db p c.before c.stands found closed
      (is_current-is_open c.names.revision c.names.revision_hash c.before c.was_current))

module _ (env : Env) where
  call-closed :
      (c : Call) (db : Db) (id : String) (p : Proposal)
      → WellFormed db
      → lookup id db.proposals ≡ some p
      → is_open p.state ≡ false
      → SameAt db (after db (call env c db)) id
  call-closed c db id p w found closed = elim (call-Outcome env c db w.paired) [
    | inl same ↦
        (ap (λ d. lookup id d.proposals) same, ap (λ d. keep (of_proposal id) (pairs d)) same)
    | inr (m, change, rest, logged) ↦
        Change-closed db (after db (call env c db)) id p change found closed
  ]

  run_calls-closed_from :
      (cs : List Call) (db : Db) (id : String) (p : Proposal)
      → WellFormed db
      → lookup id db.proposals ≡ some p
      → is_open p.state ≡ false
      → SameAt db (run_calls env cs db) id
  unfolding run_calls
  run_calls-closed_from [] db id p w found closed = (refl, refl)
  run_calls-closed_from (c ∷ cs) db id p w found closed =
      let here = call-closed c db id p w found closed in
      let later =
        run_calls-closed_from cs (after db (call env c db)) id p (call-WellFormed env c db w)
          (here.0 ∙ found) closed in
      (later.0 ∙ here.0, later.1 ∙ here.1)

  -- If a proposal is approved or withdrawn after any history of calls, then no further calls change
  -- it, nor the lifecycle of any of its revisions: their names and states stay, and no revision is added.
  pub run_calls-closed :
      (before later : List Call) (id : String) (p : Proposal)
      → lookup id (run_calls env before empty).proposals ≡ some p
      → is_open p.state ≡ false
      → SameAt (run_calls env before empty) (run_calls env later (run_calls env before empty)) id
  run_calls-closed before later id p found closed =
      run_calls-closed_from later (run_calls env before empty) id p
        (run_calls-WellFormed_proposals env before) found closed
