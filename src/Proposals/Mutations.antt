-- ===== src/Proposals/Mutations.antt =====
-- internal/store/proposals.go: CreateProposal, AppendProposalRevision, DecideProposalApproval and
-- WithdrawProposal. A mutation is a transaction; its deferred foreign keys name rows that it has written
-- or read. The identifiers that newProposalIdentifier draws at random are arguments.
use ananke.Prelude.{
  ℕ, suc, String, Bool, true, false, ◌&&◌, not, Option, none, some, eqb, ◌==◌, if◌then◌else◌,
  is_some,
}
use ananke.Table.{lookup, insert}
use ananke.Proposals.Rows.{
  open_state, ReviewState, pending, rejected, superseded, same_review, RevisionInput, Revision,
  ProposalMutation, Proposal, RevisionLifecycle, Approval, Operation, create_proposal_op,
  append_revision_op, Db, Env, Result, ok, ◌>>=◌, ◌>>◌, fail_if, or_fail, proposal_not_found,
  revision_conflict, record_corrupt, constraint,
}
use ananke.Proposals.Requests.{
  CreateProposalRequest, AppendProposalRevisionRequest, create_request_body,
  append_revision_request_body, canonical_json_hash, canonical_revision_snapshot,
}
use ananke.Proposals.Validation.{
  validate_create_proposal_request, validate_append_proposal_revision_request,
}
use ananke.Proposals.Identity.{
  lookup_proposal_idempotency, insert_proposal_idempotency, append_proposal_activity,
  insert_revision, insert_approval, insert_lifecycle, update_pending_lifecycle,
  update_pending_approval, is_current, update_current, current_pair,
}

-- The look at the idempotency records before anything else.
unfoldable pub once :
    Operation
    → String
    → String
    → String
    → Db
    → Result (ProposalMutation × Db)
    → Result (ProposalMutation × Db)
once operation resource key body_hash db rest = do
  replay ← lookup_proposal_idempotency operation resource key body_hash db
  elim replay [ some m ↦ ok (m, db) | none ↦ rest ]

-- The idempotency record and the activity after everything else.
unfoldable pub record_mutation :
    Operation
    → String
    → String
    → String
    → ProposalMutation
    → ℕ
    → Db
    → Result (ProposalMutation × Db)
record_mutation operation resource key body_hash m now db = do
  d ← insert_proposal_idempotency operation resource key body_hash m db
  ok (m, append_proposal_activity m operation now d)

unfoldable pub new_revision :
    String → ℕ → Option ℕ → Option String → String → RevisionInput → ℕ → Revision
new_revision proposal_id revision parent parent_hash key input now = record {
  schema_version = "ananke.proposal-revision.v1";
  proposal_id = proposal_id;
  revision = revision;
  parent_revision = parent;
  parent_revision_hash = parent_hash;
  created_at = now;
  created_by = "local_gui_operator";
  idempotency_key = key;
  input = input;
}

-- What names a new revision, with the approval's id.
unfoldable pub identity_of : Env → String → Revision → ProposalMutation
unfolding canonical_revision_snapshot
identity_of env approval_id r = record {
  proposal_id = r.proposal_id;
  revision = r.revision;
  revision_hash = (canonical_revision_snapshot env r).1;
  approval_id = approval_id;
}

unfoldable pub insert_snapshot : Env → String → Revision → ℕ → Db → Result Db
unfolding canonical_revision_snapshot identity_of
insert_snapshot env approval_id r now db = do
  d ←
      insert_revision
        (record {
          proposal_id = r.proposal_id;
          revision = r.revision;
          revision_hash = (canonical_revision_snapshot env r).1;
          snapshot_json = (canonical_revision_snapshot env r).0;
        })
        db
  e ← insert_approval (identity_of env approval_id r) now d
  insert_lifecycle (identity_of env approval_id r) now e

unfoldable pub insert_proposal : String → CreateProposalRequest → String → ℕ → Db → Result Db
insert_proposal proposal_id request revision_hash now db = do
  fail_if (is_some (lookup proposal_id db.proposals)) constraint
  ok (record db {
    proposals =
        insert proposal_id
          (record {
            project_id = request.project_id;
            workstream_id = request.workstream_id;
            created_at = now;
            created_by = "local_gui_operator";
            state = open_state;
            current_revision = 1;
            current_revision_hash = revision_hash;
          })
          db.proposals;
  })

abbrev pub root_revision : String → CreateProposalRequest → ℕ → Revision
root_revision proposal_id request now =
    new_revision proposal_id 1 none none request.idempotency_key request.revision_input now

unfoldable pub create_proposal :
    Env → String → String → ℕ → CreateProposalRequest → Db → Result (ProposalMutation × Db)
unfolding once
create_proposal env proposal_id approval_id now request db =
    let body_hash = canonical_json_hash env (create_request_body request) in
    let revision = root_revision proposal_id request now in
    let m = identity_of env approval_id revision in
    once create_proposal_op "proposal_collection" request.idempotency_key body_hash db (do
      validate_create_proposal_request request
      d ← insert_proposal proposal_id request m.revision_hash now db
      e ← insert_snapshot env approval_id revision now d
      record_mutation create_proposal_op "proposal_collection" request.idempotency_key body_hash m
          now e)

unfoldable pub supersede_pending_revision_pair : String → ℕ → ℕ → Db → Result Db
supersede_pending_revision_pair proposal_id revision now db = do
  d ←
      update_pending_lifecycle revision_conflict
        (λ n. n.proposal_id == proposal_id && eqb n.revision revision) superseded now db
  update_pending_approval revision_conflict
      (λ n. n.proposal_id == proposal_id && eqb n.revision revision)
      (λ a. record a { state = superseded }) d

-- The states that a current revision may have if another is to follow it, or the proposal to end.
abbrev pub may_follow : ReviewState → Bool
may_follow pending = true
may_follow rejected = true
may_follow _ = false

abbrev pub next_revision : AppendProposalRevisionRequest → Proposal → ℕ → Revision
next_revision request p now =
    new_revision request.proposal_id (suc p.current_revision) (some p.current_revision)
      (some p.current_revision_hash) request.idempotency_key request.revision_input now

abbrev pub point_to : ℕ → String → Proposal → Proposal
point_to revision revision_hash p = record p {
  current_revision = revision;
  current_revision_hash = revision_hash;
}

-- The insertion of the next revision after the current one, whose states are `former`.
unfoldable pub append_next :
    Env
    → String
    → ℕ
    → AppendProposalRevisionRequest
    → Proposal
    → RevisionLifecycle × Approval
    → Db
    → Result Db
unfolding insert_snapshot supersede_pending_revision_pair update_current identity_of
append_next env approval_id now request p former db = do
  d ← insert_snapshot env approval_id (next_revision request p now) now db
  e ←
      (if same_review former.0.state pending
        then supersede_pending_revision_pair request.proposal_id p.current_revision now d
        else ok d)
  update_current revision_conflict request.proposal_id p.current_revision p.current_revision_hash
      (point_to (suc p.current_revision)
        (identity_of env approval_id (next_revision request p now)).revision_hash)
      e

unfoldable pub append_proposal_revision :
    Env → String → ℕ → AppendProposalRevisionRequest → Db → Result (ProposalMutation × Db)
unfolding once
append_proposal_revision env approval_id now request db =
    let body_hash = canonical_json_hash env (append_revision_request_body request) in
    once append_revision_op request.proposal_id request.idempotency_key body_hash db (do
      validate_append_proposal_revision_request request
      p ← or_fail (lookup request.proposal_id db.proposals) proposal_not_found
      fail_if
          (not
            (is_current request.expected_current_revision request.expected_current_revision_hash p))
          revision_conflict
      former ←
          or_fail (current_pair request.proposal_id p.current_revision p.current_revision_hash db)
            record_corrupt
      fail_if (not (same_review former.0.state former.1.state)) record_corrupt
      fail_if (not (may_follow former.0.state)) revision_conflict
      d ← append_next env approval_id now request p former db
      record_mutation append_revision_op request.proposal_id request.idempotency_key body_hash
          (identity_of env approval_id (next_revision request p now)) now d)
