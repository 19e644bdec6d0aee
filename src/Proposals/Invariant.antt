-- ===== src/Proposals/Invariant.antt =====
-- What every change of internal/store/proposals.go keeps: a proposal is in step with the pairs of its
-- revisions.
pub mod Revisions
pub mod Decisions
pub mod Histories
use mathlib.Core.List.{append-nil}
use mathlib.Core.Option
use ananke.Prelude.{◌⊎◌}
use ananke.Prelude.{
  ℕ, suc, String, ◌≡◌, refl, sym, ap, subst, ◌∙◌, inl, inr, Bool, true, false, ◌&&◌, ◌||◌, Option,
  none, some, List, [], ◌∷◌, ◌++◌, arith, eqb, ◌==◌, eq_iff, eq_refl, exists, update_where,
  rows_affected, keep, Bool-cases, keep-append, keep-update_where, keep-untouched,
  rows_affected-keep, exists-keep, if◌then◌else◌,
}
use ananke.Table.{lookup, insert, update, lookup-insert, lookup-update}
use ananke.Proposals.Rows.{
  is_open, ReviewState, pending, approved, rejected, superseded, withdrawn, same_review, open_state,
  approved_state, withdrawn_state, ProposalMutation, same_mutation, Proposal, Db, Env, after,
}
use ananke.Proposals.Identity.{is_current}
use ananke.Proposals.Mutations.{may_follow, point_to}
use ananke.Proposals.Decisions.{set_state}
use ananke.Proposals.Pairs.{
  same_review_refl, Pair, pairs, Paired, to_state, pending_at, same_review-eq,
}
use ananke.Proposals.Steps.{fresh}
use ananke.Proposals.Changes.{
  Change, creation, appending, deciding, withdrawing, Creation, Appending, Deciding, Withdrawing,
  at_revision, current_in, supersede,
}
use ananke.Proposals.Ledger.{
  Ledger, agrees, Ledger-supersede, Ledger-append, Ledger-decide, Ledger-close,
}
use ananke.Proposals.Outcomes.{call-Outcome}
use ananke.Proposals.Calls.{Call, call, run_calls, empty}

abbrev pub of_proposal : String → Pair → Bool
of_proposal id x = x.proposal_id == id

-- A proposal with its ledger, or neither.
abbrev pub Recorded : String → Option Proposal → List Pair → Type 0
Recorded id none xs = xs ≡ []
Recorded id (some p) xs = Ledger id p 1 xs

abbrev pub InStep : Db → String → Type 0
InStep db id = Recorded id (lookup id db.proposals) (keep (of_proposal id) (pairs db))

pub move :
    (id : String) (db : Db) (o : Option Proposal) (xs : List Pair)
    → lookup id db.proposals ≡ o
    → keep (of_proposal id) (pairs db) ≡ xs
    → Recorded id o xs
    → InStep db id
move id db o xs e f h =
    subst (λ t. Recorded id t (keep (of_proposal id) (pairs db))) (sym e)
      (subst (Recorded id o) (sym f) h)

pub InStep-Ledger :
    (id : String) (db : Db) (p : Proposal)
    → lookup id db.proposals ≡ some p
    → InStep db id
    → Ledger id p 1 (keep (of_proposal id) (pairs db))
InStep-Ledger id db p e h = subst (λ t. Recorded id t (keep (of_proposal id) (pairs db))) e h

-- A proposal and its pairs stand as they were.
abbrev pub SameAt : Db → Db → String → Type 0
SameAt db db' id =
    (lookup id db'.proposals ≡ lookup id db.proposals)
    × (keep (of_proposal id) (pairs db') ≡ keep (of_proposal id) (pairs db))

-- A change of one proposal, at that proposal and at the others.
pub everywhere :
    (db db' : Db) (own : String)
    → (InStep db own → InStep db' own)
    → ((id : String) → (own == id) ≡ false → SameAt db db' id)
    → (id : String) → InStep db id
    → InStep db' id
everywhere db db' own here elsewhere id h = elim (Bool-cases (own == id)) [
  | inl t ↦
      let same : own ≡ id = (eq_iff own id).0 t in
      subst (InStep db') same (here (subst (InStep db) (sym same) h))
  | inr f ↦
      move id db' (lookup id db.proposals) (keep (of_proposal id) (pairs db)) (elsewhere id f).0
        (elsewhere id f).1 h
]

-- Another proposal's id.
pub apart :
    (own id : String) (x : Pair)
    → (own == id) ≡ false
    → of_proposal own x ≡ true
    → of_proposal id x ≡ false
apart own id x f t =
    ground (arith, eq_iff x.proposal_id own, eq_iff x.proposal_id id, eq_iff own id)

pub found_in :
    (own : String) (p : Proposal) (s : ReviewState) (xs : List Pair)
    → exists (current_in own p s) xs ≡ true
    → exists (current_in own p s) (keep (of_proposal own) xs) ≡ true
found_in own p s xs e =
    exists-keep (of_proposal own) (current_in own p s) xs (λ x t. ground arith) ∙ e

pub followed :
    (s : ReviewState)
    → may_follow s ≡ true
    → (s ≡ pending) ⊎ ((s ≡ rejected) × (same_review s pending ≡ false))
unfolding same_review
followed s h = ground arith
