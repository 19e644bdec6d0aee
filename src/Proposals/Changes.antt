-- ===== src/Proposals/Changes.antt =====
-- The four kinds of change that a mutation of internal/store/proposals.go makes, as steps on the
-- proposals and the pairs of their revisions.
pub mod Current
pub mod Revisions
pub mod Decisions
pub mod Withdrawals
use ananke.Prelude.{
  ℕ, suc, String, ◌≡◌, refl, sym, ap, subst, ◌∙◌, ◌⊎◌, inl, inr, Bool, true, false, ◌&&◌, ◌||◌, not,
  Option, none, some, List, [], ◌∷◌, ◌++◌, map, arith, eqb, ◌==◌, if◌then◌else◌, eq_iff, exists,
  update_where, rows_affected, Option-cases, Bool-cases,
}
use ananke.Prelude.Fallible.{bind-ok, then-ok, fail_if-ok, or_fail-ok, Fallible-cases}
use ananke.Table.{lookup, insert, update}
use ananke.Proposals.Rows.{
  ReviewState, pending, approved, rejected, superseded, withdrawn, same_review, is_open, open_state,
  approved_state, withdrawn_state, ProposalMutation, same_mutation, Proposal, Db, Env, ok,
}
use ananke.Proposals.Requests.{CreateProposalRequest}
use ananke.Proposals.Identity.{clashes, is_current}
use ananke.Proposals.Mutations.{may_follow, point_to, identity_of, create_proposal}
use ananke.Proposals.Decisions.{set_state}
use ananke.Proposals.Pairs.{Pair, pairs, Paired, to_state, pending_at, Becomes}
use ananke.Proposals.Steps.{fresh}

-- The revision of a proposal.
abbrev pub at_revision : String → ℕ → ProposalMutation → Bool
at_revision proposal_id revision n = n.proposal_id == proposal_id && eqb n.revision revision

-- A pair of the current revision of a proposal, in a state.
abbrev pub current_in : String → Proposal → ReviewState → Pair → Bool
current_in proposal_id p s x =
    at_revision proposal_id p.current_revision x.names && same_review x.state s

abbrev pub supersede : String → ℕ → ReviewState → List Pair → List Pair
supersede proposal_id revision s xs =
    if same_review s pending
    then update_where (pending_at (at_revision proposal_id revision)) (to_state superseded) xs
    else xs

pub record Creation (db db' : Db) : Type 0 where
  pub names : ProposalMutation
  pub proposal : Proposal
  pub absent : lookup names.proposal_id db.proposals ≡ none
  pub first : names.revision ≡ 1
  pub opened : proposal.state ≡ open_state
  pub points_first : proposal.current_revision ≡ 1
  pub points_hash : proposal.current_revision_hash ≡ names.revision_hash
  pub proposals_become : db'.proposals ≡ insert names.proposal_id proposal db.proposals
  pub unclashed : exists (λ x. clashes names x.names) (pairs db) ≡ false
  pub pairs_become : pairs db' ≡ pairs db ++ fresh names ∷ []

pub record Appending (db db' : Db) : Type 0 where
  pub names : ProposalMutation
  pub before : Proposal
  pub former : ReviewState
  pub stands : lookup names.proposal_id db.proposals ≡ some before
  pub was_open : is_open before.state ≡ true
  pub next : names.revision ≡ suc before.current_revision
  pub former_pair : exists (current_in names.proposal_id before former) (pairs db) ≡ true
  pub follows : may_follow former ≡ true
  pub unclashed : exists (λ x. clashes names x.names) (pairs db) ≡ false
  pub proposals_become :
      db'.proposals
      ≡ update names.proposal_id (point_to names.revision names.revision_hash) db.proposals
  pub pairs_become :
      pairs db'
      ≡ supersede names.proposal_id before.current_revision former (pairs db ++ fresh names ∷ [])

pub record Deciding (db db' : Db) : Type 0 where
  pub names : ProposalMutation
  pub before : Proposal
  pub decision : ReviewState
  pub stands : lookup names.proposal_id db.proposals ≡ some before
  pub was_current : is_current names.revision names.revision_hash before ≡ true
  pub decided : (same_review decision approved || same_review decision rejected) ≡ true
  pub one : rows_affected (pending_at (λ n. same_mutation n names)) (pairs db) ≡ 1
  pub proposals_become : db'.proposals ≡ (
      if same_review decision approved
      then update names.proposal_id (set_state approved_state) db.proposals
      else db.proposals)
  pub pairs_become :
      pairs db'
      ≡ update_where (pending_at (λ n. same_mutation n names)) (to_state decision) (pairs db)

pub record Withdrawing (db db' : Db) : Type 0 where
  pub names : ProposalMutation
  pub before : Proposal
  pub former : ReviewState
  pub stands : lookup names.proposal_id db.proposals ≡ some before
  pub was_current : is_current names.revision names.revision_hash before ≡ true
  pub former_pair : exists (current_in names.proposal_id before former) (pairs db) ≡ true
  pub follows : may_follow former ≡ true
  pub one :
      same_review former pending ≡ true
      → rows_affected (pending_at (λ n. same_mutation n names)) (pairs db) ≡ 1
  pub proposals_become :
      db'.proposals ≡ update names.proposal_id (set_state withdrawn_state) db.proposals
  pub pairs_become : pairs db' ≡ (
      if same_review former pending
      then update_where (pending_at (λ n. same_mutation n names)) (to_state withdrawn) (pairs db)
      else pairs db)

pub data Change (db db' : Db) : Type 0 where
  creation : Creation db db' → Change db db'
  appending : Appending db db' → Change db db'
  deciding : Deciding db db' → Change db db'
  withdrawing : Withdrawing db db' → Change db db'
